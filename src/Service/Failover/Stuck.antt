-- ===== src/Service/Failover/Stuck.antt =====
-- What a failed `colod_do_failover` leaves behind.
use colo_manage_tools.Prelude.{minus_one, String, true, false, ◌≡◌, arith, is_negative}
use colo_manage_tools.Config.{ColoDomainStatus, is_shut_off, is_secondary}
use colo_manage_tools.Platform.{Yaml, Os, ColodDomainStatus, RetVal}
use colo_manage_tools.Domains
use colo_manage_tools.Domains.{get-insert}
use colo_manage_tools.World.{World, returned, ◌>>=◌, domain_at, set_domain}
use colo_manage_tools.Service.Failover.{colod_do_failover, secondary_failover_cmds}
use colo_manage_tools.Service.Failover.Degrade.{tear_down-degraded}

abbrev pub failed_over : ColodDomainStatus → ColodDomainStatus
failed_over d = record d { colo_status = ColoDomainStatus.failover }

module _ ⦃Y : Yaml⦄ ⦃O : Os⦄ where
  -- A failover of a running colo-enabled secondary that answers -1, which is one whose QMP commands
  -- failed, leaves the domain in the role `failover`, and every later failover of that domain in a
  -- world with the same domains answers -1 with the message of a wrong status.
  pub colod_do_failover-stuck :
      (name : String) (w w' : World) (ret : RetVal)
      → colod_do_failover name w ≡ returned ret w'
      → is_negative ret.code ≡ true
      → is_shut_off (Domains.get name w.domains).status ≡ false
      → (Domains.get name w.domains).colo_enable ≡ true
      → is_secondary (Domains.get name w.domains).colo_status ≡ true
      → (Domains.get name w'.domains ≡ failed_over (Domains.get name w.domains))
        × ((v : World)
            → v.domains ≡ w'.domains
            → colod_do_failover name v
              ≡ returned
                  (record { code = minus_one; msg = "can not do failover in wrong colo status." })
                  (record v {
                    domains = Domains.insert name (Domains.get name v.domains) v.domains;
                  }))
  unfolding colod_do_failover ◌>>=◌ domain_at set_domain
  colod_do_failover-stuck name w w' ret h bad up on sec =
      let d = Domains.get name w.domains in
      let u = Domains.insert name d w.domains in
      let left : Domains.get name w'.domains ≡ failed_over d = ground (
        arith,
        get-insert name d w.domains,
        get-insert name (failed_over d) u,
        tear_down-degraded name secondary_failover_cmds "Primary vm crash and do failover."
            (record w { domains = Domains.insert name (failed_over (Domains.get name u)) u }) w'
            ret,
      ) in
      (left, λ v e. ground (arith, left, e))
