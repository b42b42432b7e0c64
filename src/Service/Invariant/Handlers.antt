-- ===== src/Service/Invariant/Handlers.antt =====
-- Every handler keeps the invariants.
use colo_manage_tools.Prelude.{ℤ, minus_one, is_negative, String, Bool, false, ◌≡◌, List, [], ◌∷◌}
use colo_manage_tools.Config.{DomainStatus, ColoDomainStatus}
use colo_manage_tools.Platform.{Yaml, Os, ColodDomainStatus, RetVal}
use colo_manage_tools.World.{World, M}
use colo_manage_tools.World.Keeps.{Keeps, Keeps-test, Keeps-bind, Keeps-gets, keeps_rules}
use colo_manage_tools.Frame.{
  Keeps-parsed, Keeps-remove_domain_pid, Keeps-save_domain_info, Keeps-set_domain_colo_enable,
  Keeps-send_qmp_cmds, Keeps-run_new_vm, Keeps-destroy_domain, Keeps-vm_define, Keeps-vm_undefine,
  Keeps-get_domain, Keeps-colo_disable,
}
use colo_manage_tools.Domain.{Domain}
use colo_manage_tools.Service.Status.{
  test_domain_status, list_loop, list_domains, colod_list, colod_vm_status, colod_domain_test,
}
use colo_manage_tools.Service.Define.{defined_status, colod_define, colod_undefine}
use colo_manage_tools.Service.Start.{
  start_plain, start_here, pair_as_primary, pair_as_secondary, pair, start_colo, colod_start,
  peer_colod_start_domain, started,
}
use colo_manage_tools.Service.Destroy.{
  destroy_here, destroy_colo, colod_destroy, peer_colod_destroy_domain,
}
use colo_manage_tools.Service.Colo.{colod_colo_disable}
use colo_manage_tools.Service.Failover.{
  send_param, tear_down, colod_set_params, colod_do_failover, send_secondary,
  peer_colod_send_qmpcmds,
}
use colo_manage_tools.Service.Invariant.{IsSound}
use colo_manage_tools.Service.Invariant.Rules.{
  IsLax, Keeps-domain_at, Keeps-set_domain, Keeps-peer_lost, Keeps-erase_domain,
}

-- The changes that the handlers make to a domain.
pub IsSound-off :
    (d : ColodDomainStatus) → IsSound d → IsSound (record d { status = DomainStatus.shut_off })
IsSound-off d h = record { roled = h.roled; started = λ e. cc }

pub IsSound-stop :
    (d : ColodDomainStatus)
    → IsSound d
    → IsSound (record d { pid = minus_one; status = DomainStatus.shut_off })
IsSound-stop d h = record { roled = h.roled; started = λ e. cc }

pub IsSound-run :
    (pid : ℤ) (d : ColodDomainStatus)
    → IsSound d
    → IsSound (record d { pid = pid; status = DomainStatus.running })
IsSound-run pid d h = record { roled = h.roled; started = λ e. cc }

IsSound-pair :
    (pid : ℤ)
    → is_negative pid ≡ false
    → (d : ColodDomainStatus) → IsSound d
    → IsSound (record d { pid = pid; status = DomainStatus.colo_enabled })
IsSound-pair pid p d h = record { roled = h.roled; started = λ e. p }

pub IsSound-failover :
    (d : ColodDomainStatus)
    → IsSound d
    → IsSound (record d { colo_status = ColoDomainStatus.failover })
IsSound-failover d h = record { roled = λ e x. cc; started = h.started }

pub IsSound-degrade :
    (d : ColodDomainStatus)
    → IsSound d
    → IsSound (record d { status = DomainStatus.running; colo_status = ColoDomainStatus.degrade })
IsSound-degrade d h = record { roled = λ e x. cc; started = λ e. cc }

pub IsSound-plain : (d : ColodDomainStatus) → IsSound d → IsSound (record d { colo_enable = false })
IsSound-plain d h = record { roled = λ e. cc; started = h.started }

pub IsSound-defined :
    (name path : String) (d : ColodDomainStatus) → IsSound d → IsSound (defined_status name path)
IsSound-defined name path d h = record { roled = λ e. cc; started = λ e. cc }

pub ruleset sound_rules =
    (IsSound-off, IsSound-stop, IsSound-run, IsSound-failover, IsSound-degrade, IsSound-plain)

pub ruleset handler_rules = (
  keeps_rules, sound_rules, Keeps-domain_at, Keeps-set_domain, Keeps-peer_lost, Keeps-erase_domain,
  Keeps-parsed, Keeps-remove_domain_pid, Keeps-save_domain_info, Keeps-set_domain_colo_enable,
  Keeps-send_qmp_cmds, Keeps-run_new_vm, Keeps-destroy_domain, Keeps-vm_define, Keeps-vm_undefine,
  Keeps-get_domain, Keeps-colo_disable,
)

module _ ⦃Y : Yaml⦄ ⦃O : Os⦄ {P : World → Type 0} (l : IsLax P) where
  pub Keeps-test_domain_status : (name : String) → Keeps P (test_domain_status name)
  unfolding test_domain_status
  Keeps-test_domain_status name = search handler_rules depth 12

  Keeps-list_loop :
      (all : Bool) (names : List String) (text : String) → Keeps P (list_loop all names text)
  unfolding list_loop
  Keeps-list_loop all [] text = search keeps_rules
  Keeps-list_loop all (name ∷ names) text =
      let ih = Keeps-list_loop all names in
      search (keeps_rules, Keeps-test_domain_status, ih) depth 8

  Keeps-list_domains : (all : Bool) (names : List String) → Keeps P (list_domains all names)
  unfolding list_domains
  Keeps-list_domains all [] = search keeps_rules
  Keeps-list_domains all (name ∷ names) = search (keeps_rules, Keeps-list_loop) depth 8

  pub Keeps-colod_list : (all : Bool) → Keeps P (colod_list all)
  unfolding colod_list
  Keeps-colod_list all = search (keeps_rules, Keeps-list_domains) depth 8

  pub Keeps-colod_vm_status : (name : String) → Keeps P (colod_vm_status name)
  unfolding colod_vm_status
  Keeps-colod_vm_status name = search handler_rules depth 12

  pub Keeps-colod_domain_test : (name : String) → Keeps P (colod_domain_test name)
  unfolding colod_domain_test
  Keeps-colod_domain_test name = search (keeps_rules, Keeps-test_domain_status) depth 8

  pub Keeps-colod_define : (path : String) → Keeps P (colod_define path)
  unfolding colod_define
  Keeps-colod_define path = search (handler_rules, IsSound-defined) depth 14

  pub Keeps-colod_undefine : (name : String) → Keeps P (colod_undefine name)
  unfolding colod_undefine
  Keeps-colod_undefine name = search (handler_rules, Keeps-test_domain_status) depth 12

  Keeps-start_plain : (name : String) (d : Domain) → Keeps P (start_plain name d)
  unfolding start_plain
  Keeps-start_plain name d = search handler_rules depth 12

  Keeps-start_here :
      (name : String) (d : Domain) (cds : ColoDomainStatus) (k : M RetVal)
      → Keeps P k
      → Keeps P (start_here name d cds k)
  unfolding start_here
  Keeps-start_here name d cds k kk = Keeps-bind _ _ (Keeps-gets _) λ cs.
      Keeps-bind _ _ (Keeps-run_new_vm l.local d.name _) λ pid.
        Keeps-test _ _ _ (λ failed. search keeps_rules)
          (λ ran. Keeps-bind _ _ (Keeps-set_domain l name _ (IsSound-pair pid ran)) (λ _. kk))

  Keeps-pair_as_primary : (name : String) (d : Domain) → Keeps P (pair_as_primary name d)
  unfolding pair_as_primary started
  Keeps-pair_as_primary name d = search handler_rules depth 16

  Keeps-pair_as_secondary : (name : String) (d : Domain) → Keeps P (pair_as_secondary name d)
  unfolding pair_as_secondary started
  Keeps-pair_as_secondary name d = search handler_rules depth 16

  Keeps-pair : (cur : ColoDomainStatus) (name : String) (d : Domain) → Keeps P (pair cur name d)
  unfolding pair started
  Keeps-pair cur name d =
      search (keeps_rules, Keeps-pair_as_primary, Keeps-pair_as_secondary) depth 8

  Keeps-start_colo :
      (name : String) (d : Domain) (cur : ColoDomainStatus) → Keeps P (start_colo name d cur)
  unfolding start_colo
  Keeps-start_colo name d cur = search (handler_rules, Keeps-start_here, Keeps-pair) depth 14

  pub Keeps-colod_start : (name : String) (colo : Bool) → Keeps P (colod_start name colo)
  unfolding colod_start
  Keeps-colod_start name colo =
      search (handler_rules, Keeps-test_domain_status, Keeps-start_plain, Keeps-start_colo) depth 14

  pub Keeps-peer_colod_start_domain :
      (name : String) (colo : Bool) → Keeps P (peer_colod_start_domain name colo)
  unfolding peer_colod_start_domain
  Keeps-peer_colod_start_domain name colo = search (handler_rules, Keeps-start_here) depth 16

  Keeps-destroy_here : (name done : String) → Keeps P (destroy_here name done)
  unfolding destroy_here
  Keeps-destroy_here name done = search handler_rules depth 12

  Keeps-destroy_colo : (name : String) → Keeps P (destroy_colo name)
  unfolding destroy_colo
  Keeps-destroy_colo name = search (handler_rules, Keeps-destroy_here) depth 12

  pub Keeps-colod_destroy : (name : String) → Keeps P (colod_destroy name)
  unfolding colod_destroy
  Keeps-colod_destroy name =
      search (handler_rules, Keeps-test_domain_status, Keeps-destroy_here, Keeps-destroy_colo) depth
        12

  pub Keeps-peer_colod_destroy_domain : (name : String) → Keeps P (peer_colod_destroy_domain name)
  unfolding peer_colod_destroy_domain
  Keeps-peer_colod_destroy_domain name =
      search (handler_rules, Keeps-test_domain_status, Keeps-destroy_here) depth 12

  pub Keeps-colod_colo_disable : (name : String) → Keeps P (colod_colo_disable name)
  unfolding colod_colo_disable
  Keeps-colod_colo_disable name = search handler_rules depth 12

  pub Keeps-colod_set_params :
      (name property : String) (value : ℤ) → Keeps P (colod_set_params name property value)
  unfolding colod_set_params send_param
  Keeps-colod_set_params name property value = search handler_rules depth 14

  Keeps-tear_down :
      (name : String) (cmds : List String) (done : String) → Keeps P (tear_down name cmds done)
  unfolding tear_down
  Keeps-tear_down name cmds done = search handler_rules depth 12

  pub Keeps-colod_do_failover : (name : String) → Keeps P (colod_do_failover name)
  unfolding colod_do_failover
  Keeps-colod_do_failover name = search (handler_rules, Keeps-tear_down) depth 14

  pub Keeps-peer_colod_send_qmpcmds :
      (name : String) (cds : ColoDomainStatus) → Keeps P (peer_colod_send_qmpcmds name cds)
  unfolding peer_colod_send_qmpcmds send_secondary
  Keeps-peer_colod_send_qmpcmds name cds = search (handler_rules, Keeps-test_domain_status) depth 16
