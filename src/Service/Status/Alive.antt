-- ===== src/Service/Status/Alive.antt =====
-- What `test_domain_status` answers.
use colo_manage_tools.Prelude.{String, ◌≡◌, arith, inl, inr, is_minus_one, if◌then◌else◌}
use colo_manage_tools.Config.{DomainStatus}
use colo_manage_tools.Platform.{Yaml, Os, ColodDomainStatus}
use colo_manage_tools.Domains
use colo_manage_tools.Domains.{get-insert}
use colo_manage_tools.World.{World, Outcome-cases, returned, ◌>>=◌, domain_at, set_domain}
use colo_manage_tools.SaveFile.{remove_domain_pid}
use colo_manage_tools.Frame.{Keeps-remove_domain_pid}
use colo_manage_tools.Frame.Globals.{HasDomains-IsLocal, domains-returned}
use colo_manage_tools.Service.Status.{test_domain_status}

abbrev off : ColodDomainStatus → ColodDomainStatus
off d = record d { status = DomainStatus.shut_off }

module _ ⦃Y : Yaml⦄ ⦃O : Os⦄ where
  -- The record of a domain after a look at its process.
  unfoldable pub observed : World → ColodDomainStatus → ColodDomainStatus
  observed w d = if is_minus_one d.pid then d else if O.exists_process w.os d.pid then d else off d

  -- The status that `test_domain_status` answers is `shut_off` for a domain without a pid and for one
  -- whose process is gone, and the recorded status otherwise; the record is as before but for the
  -- status of a domain whose process is gone, which is `shut_off` from then on.
  pub test_domain_status-observed :
      (name : String) (w w' : World) (s : DomainStatus)
      → test_domain_status name w ≡ returned s w'
      → (s ≡ (
          if is_minus_one (Domains.get name w.domains).pid
          then DomainStatus.shut_off
          else (observed w (Domains.get name w.domains)).status))
        × (Domains.get name w'.domains ≡ observed w (Domains.get name w.domains))
  unfolding test_domain_status ◌>>=◌ domain_at set_domain observed
  test_domain_status-observed name w w' s h =
      let d = Domains.get name w.domains in
      let u = Domains.insert name d w.domains in
      let v = record w { domains = Domains.insert name (off (Domains.get name u)) u } in
      elim (Outcome-cases (remove_domain_pid name v)) [
        | inr (v', e) ↦ ground (arith, e, get-insert name d w.domains)
        | inl (r, v', e) ↦ ground (
          arith,
          e,
          get-insert name d w.domains,
          get-insert name (off (Domains.get name u)) u,
          domains-returned (Keeps-remove_domain_pid (HasDomains-IsLocal v.domains) name) e,
        )
      ]
