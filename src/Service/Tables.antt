-- ===== src/Service/Tables.antt =====
-- The handlers of src/utils/colod_service.cpp leave the entries of the save file with different names.
pub mod Serve
use colo_manage_tools.Prelude.{Option, ℤ, ◌≡◌, false, is_negative, String, Bool, List, [], ◌∷◌}
use colo_manage_tools.Config.{ColoDomainStatus}
use colo_manage_tools.Platform.{Yaml, Os, RetVal, ShellCommand}
use colo_manage_tools.Platform.Laws.{IsYaml}
use colo_manage_tools.World.{World, M}
use colo_manage_tools.World.Keeps.{Keeps, Keeps-bind, Keeps-if, Keeps-pure, Keeps-gets}
use colo_manage_tools.World.Filed.{IsFiled, Filed-set_domain, Filed-close, filed_rules}
use colo_manage_tools.SaveFile.Distinct.Tables.{HasTable, HasTable-IsFiled}
use colo_manage_tools.SaveFile.Distinct.Kept.{
  Keeps-save_domain_info, Keeps-save_domain_pid, Keeps-remove_domain_pid,
  Keeps-set_domain_colo_enable, Keeps-set_domain_colo_disable, Keeps-save_colo_status,
  Keeps-vm_undefine,
}
use colo_manage_tools.Frame.Tables.{
  Table-get_domain, Table-send_qmp_cmds, Table-run_new_vm, Table-destroy_domain, Table-colo_disable,
  table_rules,
}
use colo_manage_tools.Domain.Parse.{Parsed, accepted, rejected, threw}
use colo_manage_tools.QmpSocket.{
  QmpSocket, qmp_connect, qmp_send, qmp_recv, qmp_close, send_loop, send_qmp_cmds, throw,
}
use colo_manage_tools.RunVm.{get_domain_pid, run_new_vm, kill_domain, destroy_domain}
use colo_manage_tools.Domain.{Domain}
use colo_manage_tools.Domain.Files.{parsed, colo_disable, get_loop, get_domain}
use colo_manage_tools.Service.Status.{
  test_domain_status, list_loop, list_domains, colod_list, colod_vm_status, colod_domain_test,
}
use colo_manage_tools.Service.Define.{colod_undefine}
use colo_manage_tools.Service.Start.{
  start_plain, start_here, pair_as_primary, pair_as_secondary, pair, start_colo, started,
  colod_start, peer_colod_start_domain,
}
use colo_manage_tools.Service.Destroy.{
  destroy_here, destroy_colo, colod_destroy, peer_colod_destroy_domain,
}
use colo_manage_tools.Service.Colo.{give_up, enable_as, colod_colo_enable, colod_colo_disable}
use colo_manage_tools.Service.Failover.{
  send_param, tear_down, colod_set_params, colod_do_failover, send_secondary,
  peer_colod_send_qmpcmds,
}

ruleset handler_rules = (table_rules, Table-get_domain, Table-send_qmp_cmds)

module _ ⦃Y : Yaml⦄ ⦃O : Os⦄ (L : IsYaml Y) where
  pub Table-test_domain_status : (name : String) → Keeps HasTable (test_domain_status name)
  unfolding test_domain_status
  Table-test_domain_status name = search handler_rules depth 12

  Table-list_loop :
      (all : Bool) (names : List String) (text : String) → Keeps HasTable (list_loop all names text)
  unfolding list_loop
  Table-list_loop all [] text = search handler_rules
  Table-list_loop all (name ∷ names) text =
      let ih = Table-list_loop all names in
      search (handler_rules, Table-test_domain_status, ih) depth 8

  Table-list_domains : (all : Bool) (names : List String) → Keeps HasTable (list_domains all names)
  unfolding list_domains
  Table-list_domains all [] = search handler_rules
  Table-list_domains all (name ∷ names) = search (handler_rules, Table-list_loop) depth 8

  pub Table-colod_list : (all : Bool) → Keeps HasTable (colod_list all)
  unfolding colod_list
  Table-colod_list all = search (handler_rules, Table-list_domains) depth 8

  pub Table-colod_vm_status : (name : String) → Keeps HasTable (colod_vm_status name)
  unfolding colod_vm_status
  Table-colod_vm_status name = search handler_rules depth 12

  pub Table-colod_domain_test : (name : String) → Keeps HasTable (colod_domain_test name)
  unfolding colod_domain_test
  Table-colod_domain_test name = search (handler_rules, Table-test_domain_status) depth 8

  pub Table-colod_undefine : (name : String) → Keeps HasTable (colod_undefine name)
  unfolding colod_undefine
  Table-colod_undefine name = search (handler_rules, Table-test_domain_status) depth 12

  Table-start_plain : (name : String) (d : Domain) → Keeps HasTable (start_plain name d)
  unfolding start_plain
  Table-start_plain name d = search (handler_rules, Table-run_new_vm) depth 12

  pub Table-start_here :
      (name : String) (d : Domain) (cds : ColoDomainStatus) (k : M RetVal)
      → Keeps HasTable k
      → Keeps HasTable (start_here name d cds k)
  unfolding start_here
  Table-start_here name d cds k rk = Keeps-bind _ _ (Keeps-gets _) λ cs.
      Keeps-bind _ _ (Table-run_new_vm L d.name _) λ pid.
        Keeps-if _ _ _ (Keeps-pure _)
          (Keeps-bind _ _ (Filed-set_domain HasTable-IsFiled name _) (λ done. rk))

  Table-destroy_here : (name done : String) → Keeps HasTable (destroy_here name done)
  unfolding destroy_here
  Table-destroy_here name done = search (handler_rules, Table-destroy_domain) depth 12

  Table-destroy_colo : (name : String) → Keeps HasTable (destroy_colo name)
  unfolding destroy_colo
  Table-destroy_colo name = search (handler_rules, Table-destroy_here) depth 12

  pub Table-colod_destroy : (name : String) → Keeps HasTable (colod_destroy name)
  unfolding colod_destroy
  Table-colod_destroy name =
      search (handler_rules, Table-test_domain_status, Table-destroy_here, Table-destroy_colo) depth
        12

  pub Table-peer_colod_destroy_domain :
      (name : String) → Keeps HasTable (peer_colod_destroy_domain name)
  unfolding peer_colod_destroy_domain
  Table-peer_colod_destroy_domain name =
      search (handler_rules, Table-test_domain_status, Table-destroy_here) depth 12

  Table-give_up : (name err : String) → Keeps HasTable (give_up name err)
  unfolding give_up
  Table-give_up name err = search handler_rules depth 8

  Table-enable_as : (role : ColoDomainStatus) (name : String) → Keeps HasTable (enable_as role name)
  unfolding enable_as
  Table-enable_as role name = search (handler_rules, Table-give_up) depth 16

  pub Table-colod_colo_enable : (name : String) → Keeps HasTable (colod_colo_enable name)
  unfolding colod_colo_enable
  Table-colod_colo_enable name = search (handler_rules, Table-enable_as) depth 12

  pub Table-colod_colo_disable : (name : String) → Keeps HasTable (colod_colo_disable name)
  unfolding colod_colo_disable
  Table-colod_colo_disable name = search (handler_rules, Table-colo_disable) depth 12

  Table-pair_as_primary : (name : String) (d : Domain) → Keeps HasTable (pair_as_primary name d)
  unfolding pair_as_primary started
  Table-pair_as_primary name d = search handler_rules depth 16

  Table-pair_as_secondary : (name : String) (d : Domain) → Keeps HasTable (pair_as_secondary name d)
  unfolding pair_as_secondary started
  Table-pair_as_secondary name d = search handler_rules depth 16

  Table-pair :
      (cur : ColoDomainStatus) (name : String) (d : Domain) → Keeps HasTable (pair cur name d)
  unfolding pair started
  Table-pair cur name d =
      search (handler_rules, Table-pair_as_primary, Table-pair_as_secondary) depth 8

  Table-start_colo :
      (name : String) (d : Domain) (cur : ColoDomainStatus) → Keeps HasTable (start_colo name d cur)
  unfolding start_colo
  Table-start_colo name d cur = search (handler_rules, Table-start_here, Table-pair) depth 14

  pub Table-colod_start : (name : String) (colo : Bool) → Keeps HasTable (colod_start name colo)
  unfolding colod_start
  Table-colod_start name colo =
      search (handler_rules, Table-test_domain_status, Table-start_plain, Table-start_colo) depth 14

  pub Table-peer_colod_start_domain :
      (name : String) (colo : Bool) → Keeps HasTable (peer_colod_start_domain name colo)
  unfolding peer_colod_start_domain
  Table-peer_colod_start_domain name colo = search (handler_rules, Table-start_here) depth 16

  pub Table-colod_set_params :
      (name property : String) (value : ℤ) → Keeps HasTable (colod_set_params name property value)
  unfolding colod_set_params send_param
  Table-colod_set_params name property value = search handler_rules depth 14

  Table-tear_down :
      (name : String) (cmds : List String) (done : String)
      → Keeps HasTable (tear_down name cmds done)
  unfolding tear_down
  Table-tear_down name cmds done = search handler_rules depth 12

  pub Table-colod_do_failover : (name : String) → Keeps HasTable (colod_do_failover name)
  unfolding colod_do_failover
  Table-colod_do_failover name = search (handler_rules, Table-tear_down) depth 14

  pub Table-peer_colod_send_qmpcmds :
      (name : String) (cds : ColoDomainStatus) → Keeps HasTable (peer_colod_send_qmpcmds name cds)
  unfolding peer_colod_send_qmpcmds send_secondary
  Table-peer_colod_send_qmpcmds name cds = search (handler_rules, Table-test_domain_status) depth 16
