-- ===== src/Service/Failover/Degrade.antt =====
-- What `colod_do_failover` leaves behind.
use colo_manage_tools.Prelude.{
  refl, Bool-cases, ℤ, String, List, true, false, ◌≡◌, ◌⊎◌, arith, inl, inr, is_negative,
  if◌then◌else◌,
}
use colo_manage_tools.Config.{DomainStatus, ColoDomainStatus, is_shut_off, is_primary, is_secondary}
use colo_manage_tools.Platform.{Yaml, Os, ColodDomainStatus, RetVal}
use colo_manage_tools.Domains
use colo_manage_tools.Domains.{get-insert}
use colo_manage_tools.World.{World, Outcome-cases, returned, ◌>>=◌, domain_at, set_domain}
use colo_manage_tools.Frame.{Keeps-send_qmp_cmds}
use colo_manage_tools.Frame.Globals.{HasDomains-IsLocal, domains-returned}
use colo_manage_tools.QmpSocket.{send_qmp_cmds}
use colo_manage_tools.Service.Failover.{
  tear_down, colod_do_failover, secondary_failover_cmds, primary_failover_cmds,
}

abbrev pub degraded : ColodDomainStatus → ColodDomainStatus
degraded d = record d { status = DomainStatus.running; colo_status = ColoDomainStatus.degrade }

module _ ⦃Y : Yaml⦄ ⦃O : Os⦄ where
  sent-domains :
      (cmds : List String) (w w' : World) (r : ℤ)
      → send_qmp_cmds cmds w ≡ returned r w'
      → w'.domains ≡ w.domains
  sent-domains cmds w w' r h =
      domains-returned (Keeps-send_qmp_cmds (HasDomains-IsLocal w.domains) cmds) h

  pub tear_down-degraded :
      (name : String) (cmds : List String) (done : String) (w w' : World) (ret : RetVal)
      → tear_down name cmds done w ≡ returned ret w'
      → Domains.get name w'.domains ≡ (
          if is_negative ret.code
          then Domains.get name w.domains
          else degraded (Domains.get name w.domains))
  unfolding tear_down ◌>>=◌ set_domain
  tear_down-degraded name cmds done w w' ret h = elim (Outcome-cases (send_qmp_cmds cmds w)) [
    | inr (v, e) ↦ ground (arith, e)
    | inl (r, v, e) ↦ ground (
      arith,
      e,
      sent-domains cmds w v r e,
      get-insert name (degraded (Domains.get name v.domains)) v.domains,
    )
  ]

  -- The commands `cmds` were sent, and each was answered, between the two states of the operating
  -- system.
  abbrev pub AreSent : List String → O.State → O.State → Type 0
  AreSent cmds s t =
      (v x : World) × (r : ℤ) × (send_qmp_cmds cmds v ≡ returned r x)
      × (is_negative r ≡ false)
      × (v.os ≡ s)
      × (x.os ≡ t)

  tear_down-AreSent :
      (name : String) (cmds : List String) (done : String) (w w' : World) (ret : RetVal)
      → tear_down name cmds done w ≡ returned ret w'
      → is_negative ret.code ≡ false
      → AreSent cmds w.os w'.os
  unfolding tear_down ◌>>=◌ set_domain
  tear_down-AreSent name cmds done w w' ret h ok = elim (Outcome-cases (send_qmp_cmds cmds w)) [
    | inr (v, e) ↦ absurd (ground (arith, e))
    | inl (r, v, e) ↦ elim (Bool-cases (is_negative r)) [
      | inl bad ↦ absurd (ground (arith, e, bad))
      | inr good ↦ (w, v, r, e, good, refl, ground (arith, e, good))
    ]
  ]

  -- The commands of a failover in a role.
  abbrev pub failover_cmds : ColoDomainStatus → List String
  failover_cmds role = if is_secondary role then secondary_failover_cmds else primary_failover_cmds

  colod_do_failover-AreSent :
      (name : String) (w w' : World) (ret : RetVal)
      → colod_do_failover name w ≡ returned ret w'
      → is_negative ret.code ≡ false
      → AreSent (failover_cmds (Domains.get name w.domains).colo_status) w.os w'.os
  unfolding colod_do_failover ◌>>=◌ domain_at set_domain
  colod_do_failover-AreSent name w w' ret h ok =
      let d = Domains.get name w.domains in
      let u = record w { domains = Domains.insert name d w.domains } in
      let v = record u {
        domains =
            Domains.insert name
              (record (Domains.get name u.domains) { colo_status = ColoDomainStatus.failover })
              u.domains;
      } in
      elim (Bool-cases (is_secondary d.colo_status)) [
        | inl second ↦ rw second (
            tear_down-AreSent name secondary_failover_cmds "Primary vm crash and do failover." v w'
              ret (ground (arith, second)) ok)
        | inr first ↦ rw first (
            tear_down-AreSent name primary_failover_cmds "Secondary vm crash and do failover." u w'
              ret (ground (arith, first)) ok)
      ]

  -- A failover that answers 0 was asked of a machine that is not shut off and has a role, and leaves
  -- it running on its own: its status is `running`, its role `degrade`, and the rest as before; what it
  -- did to the operating system is that the commands of this role were sent and answered.
  pub colod_do_failover-degraded :
      (name : String) (w w' : World) (ret : RetVal)
      → colod_do_failover name w ≡ returned ret w'
      → is_negative ret.code ≡ false
      → (Domains.get name w'.domains ≡ degraded (Domains.get name w.domains))
        × (is_shut_off (Domains.get name w.domains).status ≡ false)
        × ((Domains.get name w.domains).colo_enable ≡ true)
        × ((is_primary (Domains.get name w.domains).colo_status ≡ true)
            ⊎ (is_secondary (Domains.get name w.domains).colo_status ≡ true))
        × AreSent (failover_cmds (Domains.get name w.domains).colo_status) w.os w'.os
  unfolding colod_do_failover ◌>>=◌ domain_at set_domain
  colod_do_failover-degraded name w w' ret h ok =
      let d = Domains.get name w.domains in
      let left : (Domains.get name w'.domains ≡ degraded (Domains.get name w.domains))
          × (is_shut_off (Domains.get name w.domains).status ≡ false)
          × ((Domains.get name w.domains).colo_enable ≡ true)
          × ((is_primary (Domains.get name w.domains).colo_status ≡ true)
              ⊎ (is_secondary (Domains.get name w.domains).colo_status ≡ true)) =
        ground (
          arith,
          get-insert name d w.domains,
          get-insert name (record d { colo_status = ColoDomainStatus.failover })
              (Domains.insert name d w.domains),
          tear_down-degraded name primary_failover_cmds "Secondary vm crash and do failover."
              (record w { domains = Domains.insert name d w.domains }) w' ret,
          tear_down-degraded name secondary_failover_cmds "Primary vm crash and do failover."
              (record w {
                domains =
                    Domains.insert name
                      (record (Domains.get name (Domains.insert name d w.domains)) {
                        colo_status = ColoDomainStatus.failover;
                      })
                      (Domains.insert name d w.domains);
              })
              w' ret,
        ) in
      (left.0, left.1, left.2, left.3, colod_do_failover-AreSent name w w' ret h ok)
