-- ===== src/Service/Total.antt =====
-- The handlers of src/utils/colod_service.cpp that call neither the peer nor the monitor come back: in
-- a world whose save file can be read, no exception ends them.
pub mod Serve
use colo_manage_tools.Prelude.{ℤ, ◌≡◌, false, is_negative, String, Bool, List, [], ◌∷◌}
use colo_manage_tools.Config.{ColoDomainStatus}
use colo_manage_tools.Platform.{Yaml, Os, RetVal, ShellCommand}
use colo_manage_tools.Platform.Laws.{IsYaml}
use colo_manage_tools.World.{World, M}
use colo_manage_tools.World.Returns.{
  Returns, returns_rules, Returns-gets, Returns-bind, Returns-if, Returns-pure, Returns-set_domain,
}
use colo_manage_tools.SaveFile.Total.{
  IsIntact, IsIntact-IsSteady, Returns-save_domain_pid, Returns-remove_domain_pid,
  Returns-set_domain_colo_enable, Returns-set_domain_colo_disable, Returns-get_domain_pid,
}
use colo_manage_tools.RunVm.{run_new_vm, kill_domain, destroy_domain}
use colo_manage_tools.Domain.{Domain}
use colo_manage_tools.Domain.Files.{colo_disable}
use colo_manage_tools.Domain.Total.{Returns-get_domain, Returns-vm_undefine}
use colo_manage_tools.Service.Status.{
  test_domain_status, list_loop, list_domains, colod_list, colod_vm_status, colod_domain_test,
}
use colo_manage_tools.Service.Define.{colod_undefine}
use colo_manage_tools.Service.Start.{
  start_plain, start_here, pair_as_primary, pair_as_secondary, pair, start_colo, started,
  colod_start, peer_colod_start_domain,
}
use colo_manage_tools.Service.Destroy.{
  destroy_here, destroy_colo, colod_destroy, peer_colod_destroy_domain,
}
use colo_manage_tools.Service.Colo.{give_up, enable_as, colod_colo_enable, colod_colo_disable}
use colo_manage_tools.Service.Failover.{
  send_param, tear_down, colod_set_params, colod_do_failover, send_secondary,
  peer_colod_send_qmpcmds,
}

ruleset below_rules = (
  returns_rules, IsIntact-IsSteady, Returns-save_domain_pid, Returns-remove_domain_pid,
  Returns-set_domain_colo_enable, Returns-set_domain_colo_disable, Returns-get_domain_pid,
  Returns-get_domain, Returns-vm_undefine,
)

module _ ⦃Y : Yaml⦄ ⦃O : Os⦄ (L : IsYaml Y) where
  Returns-run_new_vm : (name : String) (cmd : ShellCommand) → Returns IsIntact (run_new_vm name cmd)
  unfolding run_new_vm
  Returns-run_new_vm name cmd = search below_rules depth 12

  Returns-kill_domain : (name : String) (pid : ℤ) → Returns IsIntact (kill_domain name pid)
  unfolding kill_domain
  Returns-kill_domain name pid = search below_rules depth 12

  Returns-destroy_domain : (name : String) → Returns IsIntact (destroy_domain name)
  unfolding destroy_domain
  Returns-destroy_domain name = search (below_rules, Returns-kill_domain) depth 12

  Returns-colo_disable : (name : String) → Returns IsIntact (colo_disable name)
  unfolding colo_disable
  Returns-colo_disable name = search below_rules depth 12

  pub Returns-test_domain_status : (name : String) → Returns IsIntact (test_domain_status name)
  unfolding test_domain_status
  Returns-test_domain_status name = search below_rules depth 12

  Returns-list_loop :
      (all : Bool) (names : List String) (text : String)
      → Returns IsIntact (list_loop all names text)
  unfolding list_loop
  Returns-list_loop all [] text = search below_rules
  Returns-list_loop all (name ∷ names) text =
      let ih = Returns-list_loop all names in
      search (below_rules, Returns-test_domain_status, ih) depth 8

  Returns-list_domains :
      (all : Bool) (names : List String) → Returns IsIntact (list_domains all names)
  unfolding list_domains
  Returns-list_domains all [] = search below_rules
  Returns-list_domains all (name ∷ names) = search (below_rules, Returns-list_loop) depth 8

  pub Returns-colod_list : (all : Bool) → Returns IsIntact (colod_list all)
  unfolding colod_list
  Returns-colod_list all = search (below_rules, Returns-list_domains) depth 8

  pub Returns-colod_vm_status : (name : String) → Returns IsIntact (colod_vm_status name)
  unfolding colod_vm_status
  Returns-colod_vm_status name = search below_rules depth 12

  pub Returns-colod_domain_test : (name : String) → Returns IsIntact (colod_domain_test name)
  unfolding colod_domain_test
  Returns-colod_domain_test name = search (below_rules, Returns-test_domain_status) depth 8

  pub Returns-colod_undefine : (name : String) → Returns IsIntact (colod_undefine name)
  unfolding colod_undefine
  Returns-colod_undefine name = search (below_rules, Returns-test_domain_status) depth 12

  Returns-start_plain : (name : String) (d : Domain) → Returns IsIntact (start_plain name d)
  unfolding start_plain
  Returns-start_plain name d = search (below_rules, Returns-run_new_vm) depth 12

  pub Returns-start_here :
      (name : String) (d : Domain) (cds : ColoDomainStatus) (k : M RetVal)
      → Returns IsIntact k
      → Returns IsIntact (start_here name d cds k)
  unfolding start_here
  Returns-start_here name d cds k rk = Returns-bind _ _ (Returns-gets _) λ cs.
      Returns-bind _ _ (Returns-run_new_vm d.name _) λ pid.
        Returns-if _ _ _ (Returns-pure _)
          (Returns-bind _ _ (Returns-set_domain IsIntact-IsSteady name _) (λ done. rk))

  Returns-destroy_here : (name done : String) → Returns IsIntact (destroy_here name done)
  unfolding destroy_here
  Returns-destroy_here name done = search (below_rules, Returns-destroy_domain) depth 12

  pub Returns-peer_colod_destroy_domain :
      (name : String) → Returns IsIntact (peer_colod_destroy_domain name)
  unfolding peer_colod_destroy_domain
  Returns-peer_colod_destroy_domain name =
      search (below_rules, Returns-test_domain_status, Returns-destroy_here) depth 12

  pub Returns-colod_colo_disable : (name : String) → Returns IsIntact (colod_colo_disable name)
  unfolding colod_colo_disable
  Returns-colod_colo_disable name = search (below_rules, Returns-colo_disable) depth 12

  pub Returns-start_plain_only : (name : String) → Returns IsIntact (colod_start name false)
  unfolding colod_start
  Returns-start_plain_only name =
      search (below_rules, Returns-test_domain_status, Returns-start_plain) depth 14

  pub Returns-peer_colod_start_domain :
      (name : String) (colo : Bool) → Returns IsIntact (peer_colod_start_domain name colo)
  unfolding peer_colod_start_domain
  Returns-peer_colod_start_domain name colo = search (below_rules, Returns-start_here) depth 16
