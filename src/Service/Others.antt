-- ===== src/Service/Others.antt =====
-- What the handlers that name a domain do to the record of another one: nothing.
pub mod Serve
use colo_manage_tools.Prelude.{
  ℤ, String, ℕ, Bool, true, false, Option, none, some, ◌==◌, ◌≡◌, ◌∙◌, refl, arith, List,
}
use colo_manage_tools.Config.{ColoDomainStatus, ColoStatus}
use colo_manage_tools.Platform.{Yaml, Os, ColodDomainStatus, RetVal, Request}
use colo_manage_tools.Platform.{connect_reply, peer_save_status, peer_save_domain}
use colo_manage_tools.Platform.{peer_start_domain, peer_destroy_domain, peer_send_qmpcmds}
use colo_manage_tools.Domains
use colo_manage_tools.Domains.{lookup-insert, lookup-erase}
use colo_manage_tools.World.{
  World, M, returned, thrown, modify, domain_at, set_domain, erase_domain, set_remote_client,
}
use colo_manage_tools.World.Keeps.{
  final-if, Keeps, IsLocal, final, Keeps-pure, Keeps-if, Keeps-bind, keeps_rules,
}
use colo_manage_tools.Frame.{
  Keeps-parsed, Keeps-remove_domain_pid, Keeps-save_domain_info, Keeps-set_domain_colo_enable,
  Keeps-send_qmp_cmds, Keeps-run_new_vm, Keeps-destroy_domain, Keeps-vm_undefine, Keeps-get_domain,
  Keeps-colo_disable,
}
use colo_manage_tools.Domain.{Domain}
use colo_manage_tools.Service.Status.{
  set_peer_init, test_domain_status, colod_vm_status, colod_domain_test,
}
use colo_manage_tools.Service.Define.{colod_undefine}
use colo_manage_tools.Service.Start.{
  start_plain, start_here, pair_as_primary, pair_as_secondary, pair, start_colo, started,
  colod_start, peer_colod_start_domain,
}
use colo_manage_tools.Service.Destroy.{
  destroy_here, destroy_colo, colod_destroy, peer_colod_destroy_domain,
}
use colo_manage_tools.Service.Colo.{
  give_up, enable_as, colod_colo_enable, colod_colo_disable, peer_colod_save_domain,
}
use colo_manage_tools.Service.Failover.{
  send_param, tear_down, colod_set_params, colod_do_failover, send_secondary,
  peer_colod_send_qmpcmds,
}
use colo_manage_tools.Service.Peer.{Call, answer, serve}

module _ ⦃Y : Yaml⦄ ⦃O : Os⦄ (k : String) (o : Option ColodDomainStatus) where
  pub record IsOther (w : World) : Type 0 where
    pub same : Domains.lookup k w.domains ≡ o

  pub IsOther-IsLocal : IsLocal IsOther
  IsOther-IsLocal = record {
    os = λ w s h. record { same = h.same };
    files = λ w fs h. record { same = h.same };
  }

  IsOther-peer_lost : Keeps IsOther (set_peer_init false)
  unfolding modify
  IsOther-peer_lost = record { at = λ w h. record { same = h.same } }

  IsOther-address : (ip : String) (port : ℕ) → Keeps IsOther (set_remote_client ip port)
  unfolding set_remote_client
  IsOther-address ip port = record {
    at = λ w h.
        final-if IsOther (O.is_endpoint w.os ip port) (returned tt _) (thrown w)
          (record { same = h.same }) h;
  }

  module _ (name : String) (apart : (name == k) ≡ false) where
    IsOther-insert :
        (d : ColodDomainStatus) (w : World)
        → IsOther w
        → IsOther (record w { domains = Domains.insert name d w.domains })
    IsOther-insert d w h = record {
      same = ground (arith, lookup-insert name k d w.domains, apart, h.same);
    }

    IsOther-domain_at : Keeps IsOther (domain_at name)
    unfolding domain_at
    IsOther-domain_at = record { at = λ w h. IsOther-insert _ w h }

    pub IsOther-set_domain :
        (f : ColodDomainStatus → ColodDomainStatus) → Keeps IsOther (set_domain name f)
    unfolding set_domain
    IsOther-set_domain f = record { at = λ w h. IsOther-insert _ w h }

    IsOther-erase_domain : Keeps IsOther (erase_domain name)
    unfolding erase_domain
    IsOther-erase_domain = record {
      at = λ w h. record { same = ground (arith, lookup-erase name k w.domains, apart, h.same) };
    }

    IsOther-test : Keeps IsOther (test_domain_status name)
    unfolding test_domain_status
    IsOther-test =
        search
          (
            keeps_rules, IsOther-IsLocal, IsOther-domain_at, IsOther-set_domain,
            Keeps-remove_domain_pid,
          )
          depth 12

    ruleset other_rules = (
      keeps_rules, IsOther-IsLocal, IsOther-peer_lost, IsOther-address, IsOther-domain_at,
      IsOther-set_domain, IsOther-erase_domain, IsOther-test, Keeps-parsed, Keeps-save_domain_info,
      Keeps-set_domain_colo_enable, Keeps-send_qmp_cmds, Keeps-run_new_vm, Keeps-destroy_domain,
      Keeps-vm_undefine, Keeps-get_domain, Keeps-colo_disable,
    )

    IsOther-start_here :
        (d : Domain) (cds : ColoDomainStatus) (m : M RetVal)
        → Keeps IsOther m
        → Keeps IsOther (start_here name d cds m)
    unfolding start_here
    IsOther-start_here d cds m km = search other_rules depth 14

    IsOther-pair : (cur : ColoDomainStatus) (d : Domain) → Keeps IsOther (pair cur name d)
    unfolding pair pair_as_primary pair_as_secondary started
    IsOther-pair cur d = search other_rules depth 20

    pub IsOther-start : (colo : Bool) → Keeps IsOther (colod_start name colo)
    unfolding colod_start start_plain start_colo
    IsOther-start colo = search (other_rules, IsOther-start_here, IsOther-pair) depth 20

    pub IsOther-peer_start : (colo : Bool) → Keeps IsOther (peer_colod_start_domain name colo)
    unfolding peer_colod_start_domain
    IsOther-peer_start colo = search (other_rules, IsOther-start_here) depth 16

    pub IsOther-destroy : Keeps IsOther (colod_destroy name)
    unfolding colod_destroy destroy_here destroy_colo
    IsOther-destroy = search other_rules depth 20

    pub IsOther-peer_destroy : Keeps IsOther (peer_colod_destroy_domain name)
    unfolding peer_colod_destroy_domain destroy_here
    IsOther-peer_destroy = search other_rules depth 16

    pub IsOther-undefine : Keeps IsOther (colod_undefine name)
    unfolding colod_undefine
    IsOther-undefine = search other_rules depth 16

    pub IsOther-colo_enable : Keeps IsOther (colod_colo_enable name)
    unfolding colod_colo_enable enable_as give_up
    IsOther-colo_enable = search other_rules depth 24

    pub IsOther-colo_disable : Keeps IsOther (colod_colo_disable name)
    unfolding colod_colo_disable
    IsOther-colo_disable = search other_rules depth 12

    pub IsOther-vm_status : Keeps IsOther (colod_vm_status name)
    unfolding colod_vm_status
    IsOther-vm_status = search other_rules depth 12

    pub IsOther-domain_test : Keeps IsOther (colod_domain_test name)
    unfolding colod_domain_test
    IsOther-domain_test = search other_rules depth 12

    pub IsOther-set_params :
        (property : String) (value : ℤ) → Keeps IsOther (colod_set_params name property value)
    unfolding colod_set_params send_param
    IsOther-set_params property value = search other_rules depth 16

    pub IsOther-failover : Keeps IsOther (colod_do_failover name)
    unfolding colod_do_failover tear_down
    IsOther-failover = search other_rules depth 18

    pub IsOther-send_qmpcmds :
        (cds : ColoDomainStatus) → Keeps IsOther (peer_colod_send_qmpcmds name cds)
    unfolding peer_colod_send_qmpcmds send_secondary
    IsOther-send_qmpcmds cds = search other_rules depth 18
