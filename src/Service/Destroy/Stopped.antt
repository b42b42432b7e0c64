-- ===== src/Service/Destroy/Stopped.antt =====
-- What `colod_destroy` leaves behind.
use colo_manage_tools.Prelude.{
  ℤ, Bool-cases, minus_one, String, true, false, ◌≡◌, ◌<>◌, arith, inl, inr, Option-cases,
  is_negative, is_minus_one,
}
use colo_manage_tools.Config.{DomainStatus, is_running}
use colo_manage_tools.Platform.{Yaml, Os, ColodDomainStatus, RetVal, peer_destroy_domain}
use colo_manage_tools.Domains
use colo_manage_tools.Domains.{get-insert}
use colo_manage_tools.World.{
  World, Outcome-cases, returned, ◌>>=◌, domain_at, set_domain, remote_call,
}
use colo_manage_tools.RunVm.{destroy_domain, kill_domain, get_domain_pid}
use colo_manage_tools.SaveFile.{remove_domain_pid}
use colo_manage_tools.Frame.{Keeps-destroy_domain}
use colo_manage_tools.Frame.Globals.{HasDomains-IsLocal, domains-returned}
use colo_manage_tools.Service.Status.{test_domain_status}
use colo_manage_tools.Service.Status.Alive.{observed, test_domain_status-observed}
use colo_manage_tools.Service.Destroy.{destroy_here, destroy_colo, colod_destroy}

abbrev pub stopped : ColodDomainStatus → ColodDomainStatus
stopped d = record d { pid = minus_one; status = DomainStatus.shut_off }

module _ ⦃Y : Yaml⦄ ⦃O : Os⦄ where
  -- The last thing that was done to the operating system is a kill that succeeded.
  abbrev pub IsKilled : World → Type 0
  IsKilled w =
      (s : O.State) × (pid : ℤ) × ((O.kill_process s pid).0 ≡ true)
      × (w.os ≡ (O.kill_process s pid).1)

  kill_domain-IsKilled :
      (name : String) (pid : ℤ) (w w' : World) (r : ℤ)
      → kill_domain name pid w ≡ returned r w'
      → is_negative r ≡ false
      → IsKilled w'
  unfolding kill_domain ◌>>=◌
  kill_domain-IsKilled name pid w w' r h ok = elim (Outcome-cases (remove_domain_pid name w)) [
    | inr (v, e) ↦ absurd (ground (arith, e))
    | inl (c, v, e) ↦ elim (Bool-cases (O.kill_process v.os pid).0) [
      | inl killed ↦ (v.os, pid, killed, ground (arith, e, killed))
      | inr lives ↦ absurd (ground (arith, e, lives))
    ]
  ]

  destroy_domain-IsKilled :
      (name : String) (w w' : World) (r : ℤ)
      → destroy_domain name w ≡ returned r w'
      → is_negative r ≡ false
      → IsKilled w'
  unfolding destroy_domain ◌>>=◌
  destroy_domain-IsKilled name w w' r h ok = elim (Outcome-cases (get_domain_pid name w)) [
    | inr (v, e) ↦ absurd (ground (arith, e))
    | inl (found, v, e) ↦ elim (Option-cases found) [
      | inr none_e ↦ absurd (ground (arith, e, none_e))
      | inl (pid, some_e) ↦ kill_domain-IsKilled name pid v w' r (ground (arith, e, some_e)) ok
    ]
  ]

  destroy_here-IsKilled :
      (name done : String) (w w' : World) (ret : RetVal)
      → destroy_here name done w ≡ returned ret w'
      → is_negative ret.code ≡ false
      → IsKilled w'
  unfolding destroy_here ◌>>=◌ set_domain
  destroy_here-IsKilled name done w w' ret h ok = elim (Outcome-cases (destroy_domain name w)) [
    | inr (v, e) ↦ absurd (ground (arith, e))
    | inl (r, v, e) ↦ elim (Bool-cases (is_negative r)) [
      | inl bad ↦ absurd (ground (arith, e, bad))
      | inr good ↦
          let (s, pid, killed, left) = destroy_domain-IsKilled name w v r e good in
          (s, pid, killed, ground (arith, e, good, left))
    ]
  ]

  destroy_here-stopped :
      (name done : String) (w w' : World) (ret : RetVal)
      → destroy_here name done w ≡ returned ret w'
      → is_negative ret.code ≡ false
      → Domains.get name w'.domains ≡ stopped (Domains.get name w.domains)
  unfolding destroy_here ◌>>=◌ set_domain
  destroy_here-stopped name done w w' ret h ok = elim (Outcome-cases (destroy_domain name w)) [
    | inr (v, e) ↦ ground (arith, e)
    | inl (r, v, e) ↦ ground (
      arith,
      e,
      get-insert name (stopped (Domains.get name v.domains)) v.domains,
      domains-returned (Keeps-destroy_domain (HasDomains-IsLocal w.domains) name) e,
    )
  ]

  called-stopped :
      (name : String) (w w' : World) (ret : RetVal)
      → destroy_colo name w ≡ returned ret w'
      → is_negative ret.code ≡ false
      → Domains.get name w'.domains ≡ stopped (Domains.get name w.domains)
  unfolding destroy_colo ◌>>=◌ remote_call
  called-stopped name w w' ret h ok = elim (Option-cases w.remote_address) [
    | inr e ↦ ground (arith, e)
    | inl ((ip, port), e) ↦ ground (
      arith,
      e,
      destroy_here-stopped name ("colo domain " <> name <> " destroy.")
          (record w { os = (O.call w.os ip port (peer_destroy_domain name)).1 }) w' ret,
    )
  ]

  called-IsKilled :
      (name : String) (w w' : World) (ret : RetVal)
      → destroy_colo name w ≡ returned ret w'
      → is_negative ret.code ≡ false
      → IsKilled w'
  unfolding destroy_colo ◌>>=◌
  called-IsKilled name w w' ret h ok =
      elim (Outcome-cases (remote_call (peer_destroy_domain name) w)) [
        | inr (v, e) ↦ absurd (ground (arith, e))
        | inl (reply, v, e) ↦ elim (Option-cases reply) [
          | inr lost ↦ absurd (ground (arith, e, lost))
          | inl (crv, came) ↦ elim (Bool-cases (is_negative crv.code)) [
            | inl bad ↦ absurd (ground (arith, e, came, bad))
            | inr good ↦
                destroy_here-IsKilled name ("colo domain " <> name <> " destroy.") v w' ret
                  (ground (arith, e, came, good)) ok
          ]
        ]
      ]

  colod_destroy-IsKilled :
      (name : String) (w w' : World) (ret : RetVal)
      → colod_destroy name w ≡ returned ret w'
      → is_negative ret.code ≡ false
      → IsKilled w'
  unfolding colod_destroy ◌>>=◌ domain_at
  colod_destroy-IsKilled name w w' ret h ok = elim (Outcome-cases (test_domain_status name w)) [
    | inr (v, e) ↦ absurd (ground (arith, e))
    | inl (s, v, e) ↦
        let d = Domains.get name v.domains in
        let u = record v { domains = Domains.insert name d v.domains } in
        elim (Bool-cases (is_running d.status)) [
          | inl runs ↦
              destroy_here-IsKilled name ("domain " <> name <> " destroy.") u w' ret
                (ground (arith, e, runs)) ok
          | inr other ↦ called-IsKilled name u w' ret (ground (arith, e, other)) ok
        ]
  ]

  -- A destroy that answers 0 was asked of a domain whose process was there, and leaves it with no pid
  -- and shut off, and the rest of its record as before; the last thing that it did to the operating
  -- system is a kill that succeeded.
  pub colod_destroy-stopped :
      (name : String) (w w' : World) (ret : RetVal)
      → colod_destroy name w ≡ returned ret w'
      → is_negative ret.code ≡ false
      → (Domains.get name w'.domains ≡ stopped (Domains.get name w.domains))
        × (is_minus_one (Domains.get name w.domains).pid ≡ false)
        × (O.exists_process w.os (Domains.get name w.domains).pid ≡ true)
        × IsKilled w'
  unfolding colod_destroy ◌>>=◌ domain_at observed
  colod_destroy-stopped name w w' ret h ok =
      let left : (Domains.get name w'.domains ≡ stopped (Domains.get name w.domains))
          × (is_minus_one (Domains.get name w.domains).pid ≡ false)
          × (O.exists_process w.os (Domains.get name w.domains).pid ≡ true) =
        elim (Outcome-cases (test_domain_status name w)) [
          | inr (v, e) ↦ ground (arith, e)
          | inl (s, v, e) ↦
              let d = Domains.get name v.domains in
              let u = record v { domains = Domains.insert name d v.domains } in
              ground (
                arith,
                e,
                test_domain_status-observed name w v s e,
                get-insert name d v.domains,
                destroy_here-stopped name ("domain " <> name <> " destroy.") u w' ret,
                called-stopped name u w' ret,
              )
        ] in
      (left.0, left.1, left.2, colod_destroy-IsKilled name w w' ret h ok)
