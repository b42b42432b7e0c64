-- ===== src/Service/Start/Outcome.antt =====
-- What `colod_start` in colo mode leaves behind.
use mathlib.Core.Path.{subst}
use colo_manage_tools.Prelude.{
  refl, ap, sym, ◌∙◌, ℤ, String, true, false, ◌≡◌, arith, inl, inr, Option-cases, is_negative,
}
use colo_manage_tools.Platform.{Yaml, Os, ColodDomainStatus, RetVal}
use colo_manage_tools.Domains
use colo_manage_tools.Domains.{get-insert}
use colo_manage_tools.World.{World, Outcome-cases, returned, ◌>>=◌, domain_at, set_domain}
use colo_manage_tools.World.Keeps.{Keeps, IsLocal, final, keeps_rules}
use colo_manage_tools.Config.{ColoStatus}
use colo_manage_tools.Domain.{Domain}
use colo_manage_tools.Domain.Files.{get_domain}
use colo_manage_tools.Frame.{Keeps-get_domain, Keeps-remove_domain_pid}
use colo_manage_tools.Frame.Globals.{
  HasDomains-IsLocal, domains-returned, globals, HasGlobals-IsLocal, globals-returned,
}
use colo_manage_tools.Service.Status.{test_domain_status}
use colo_manage_tools.Service.Status.Alive.{observed, test_domain_status-observed}
use colo_manage_tools.Service.Start.{start_colo, colod_start}
use colo_manage_tools.Service.Start.Running.{run_by, IsForked, start_colo-running}

module _ ⦃Y : Yaml⦄ ⦃O : Os⦄ where
  -- The status of the node, which a look at a process leaves alone.
  record HasStatus (cs : ColoStatus) (w : World) : Type 0 where
    same : w.current_status ≡ cs

  HasStatus-IsLocal : (cs : ColoStatus) → IsLocal (HasStatus cs)
  HasStatus-IsLocal cs = record {
    os = λ w s h. record { same = h.same };
    files = λ w fs h. record { same = h.same };
  }

  HasStatus-domain_at : (cs : ColoStatus) (k : String) → Keeps (HasStatus cs) (domain_at k)
  unfolding domain_at
  HasStatus-domain_at cs k = record { at = λ w h. record { same = h.same } }

  HasStatus-set_domain :
      (cs : ColoStatus) (k : String) (f : ColodDomainStatus → ColodDomainStatus)
      → Keeps (HasStatus cs) (set_domain k f)
  unfolding set_domain
  HasStatus-set_domain cs k f = record { at = λ w h. record { same = h.same } }

  HasStatus-test_domain_status :
      (cs : ColoStatus) (name : String) → Keeps (HasStatus cs) (test_domain_status name)
  unfolding test_domain_status
  HasStatus-test_domain_status cs name =
      search
        (
          keeps_rules, HasStatus-IsLocal, HasStatus-domain_at, HasStatus-set_domain,
          Keeps-remove_domain_pid,
        )
        depth 14

  -- A start in colo mode that answers no error, of a domain that is colo-enabled, leaves the domain
  -- with the pid that fork answered to the command of a definition in the role of the domain, under the
  -- status of the node, which is not negative, and with the status `colo_enabled`, and the rest of its
  -- record as before.
  pub colod_start-running :
      (name : String) (w w' : World) (ret : RetVal)
      → colod_start name true w ≡ returned ret w'
      → is_negative ret.code ≡ false
      → (Domains.get name w.domains).colo_enable ≡ true
      → (pid : ℤ) × (d : Domain) × IsForked w.current_status
          (Domains.get name w.domains).colo_status
          d
          pid
        × (Domains.get name w'.domains ≡ run_by pid (Domains.get name w.domains))
  unfolding colod_start observed domain_at ◌>>=◌
  colod_start-running name w w' ret h ok on =
      let cur = Domains.get name w.domains in
      let u = record w { domains = Domains.insert name cur w.domains } in
      elim (Outcome-cases (test_domain_status name u)) [
        | inr (v, e) ↦ absurd (ground (arith, e))
        | inl (s, v, e) ↦ elim (Outcome-cases (get_domain name v)) [
          | inr (x, f) ↦ absurd (ground (arith, e, f))
          | inl (found, x, f) ↦ elim (Option-cases found) [
            | inr bad ↦ absurd (ground (arith, e, f, bad))
            | inl (d, good) ↦
                let seen = test_domain_status-observed name u v s e in
                let same =
                  domains-returned (Keeps-get_domain (HasDomains-IsLocal v.domains) name) f in
                let here : start_colo name d cur.colo_status x ≡ returned ret w' =
                  ground (arith, e, f, good) in
                let on' : (Domains.get name x.domains).colo_enable ≡ true =
                  ground (arith, seen, same, on, get-insert name cur w.domains) in
                let looked =
                  (HasStatus-test_domain_status w.current_status name).at u
                    (record { same = refl }) in
                let tested : v.current_status ≡ w.current_status =
                  sym (ap (λ o. (final o).current_status) e) ∙ looked.same in
                let read : x.current_status ≡ v.current_status =
                  ap (λ g. g.current_status)
                    (globals-returned (Keeps-get_domain (HasGlobals-IsLocal (globals v)) name) f) in
                let (pid, forked, left) =
                  start_colo-running name d cur.colo_status x w' ret here ok on' in
                (
                  pid,
                  d,
                  subst (λ cs. IsForked cs cur.colo_status d pid) (read ∙ tested) forked,
                  ground (arith, left, seen, same, get-insert name cur w.domains),
                )
          ]
        ]
      ]
