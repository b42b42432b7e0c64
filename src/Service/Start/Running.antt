-- ===== src/Service/Start/Running.antt =====
-- What the starts leave behind.
use colo_manage_tools.Prelude.{
  ℤ, String, true, false, ◌≡◌, ◌∙◌, arith, inl, inr, Option-cases, Bool-cases, is_negative,
}
use colo_manage_tools.Config.{DomainStatus, ColoDomainStatus, ColoStatus}
use colo_manage_tools.Platform.{
  Yaml, Os, ColodDomainStatus, RetVal, ShellCommand, peer_start_domain,
}
use colo_manage_tools.Domains
use colo_manage_tools.Domains.{get-insert}
use colo_manage_tools.World.{
  World, M, Outcome-cases, returned, ◌>>=◌, domain_at, set_domain, modify, remote_call,
}
use colo_manage_tools.World.Keeps.{Keeps, IsLocal, keeps_rules}
use colo_manage_tools.SaveFile.{save_domain_pid}
use colo_manage_tools.RunVm.{run_new_vm, run_shell_command_async}
use colo_manage_tools.Domain.{Domain}
use colo_manage_tools.Frame.{Keeps-run_new_vm, Keeps-send_qmp_cmds}
use colo_manage_tools.Frame.Globals.{HasDomains-IsLocal, domains-returned}
use colo_manage_tools.Service.Status.{set_peer_init}
use colo_manage_tools.Service.Start.{
  colo_cmd, start_here, started, pair, pair_as_primary, pair_as_secondary, start_colo,
}

abbrev pub run_by : ℤ → ColodDomainStatus → ColodDomainStatus
run_by pid d = record d { pid = pid; status = DomainStatus.colo_enabled }

module _ ⦃Y : Yaml⦄ ⦃O : Os⦄ where
  -- The record of a domain, which most steps leave alone.
  record IsRecorded (name : String) (d : ColodDomainStatus) (w : World) : Type 0 where
    at : Domains.get name w.domains ≡ d

  IsRecorded-IsLocal : (name : String) (d : ColodDomainStatus) → IsLocal (IsRecorded name d)
  IsRecorded-IsLocal name d = record {
    os = λ w s h. record { at = h.at };
    files = λ w fs h. record { at = h.at };
  }

  IsRecorded-domain_at :
      (name : String) (d : ColodDomainStatus) → Keeps (IsRecorded name d) (domain_at name)
  unfolding domain_at
  IsRecorded-domain_at name d = record {
    at = λ w h. record { at = get-insert name _ w.domains ∙ h.at };
  }

  IsRecorded-peer_lost :
      (name : String) (d : ColodDomainStatus) → Keeps (IsRecorded name d) (set_peer_init false)
  unfolding modify
  IsRecorded-peer_lost name d = record { at = λ w h. record { at = h.at } }

  IsRecorded-pair :
      (name : String) (d : ColodDomainStatus) (cur : ColoDomainStatus) (dom : Domain)
      → Keeps (IsRecorded name d) (pair cur name dom)
  unfolding pair pair_as_primary pair_as_secondary started
  IsRecorded-pair name d cur dom =
      search
        (
          keeps_rules, IsRecorded-IsLocal, IsRecorded-domain_at, IsRecorded-peer_lost,
          Keeps-send_qmp_cmds,
        )
        depth 20

  -- The pid of a machine that was started is the one that fork answered.
  run_new_vm-forked :
      (name : String) (cmd : ShellCommand) (w w' : World) (pid : ℤ)
      → run_new_vm name cmd w ≡ returned pid w'
      → is_negative pid ≡ false
      → (O.fork_exec w.os cmd).0 ≡ pid
  unfolding run_new_vm run_shell_command_async ◌>>=◌
  run_new_vm-forked name cmd w w' pid h ok =
      let forked = O.fork_exec w.os cmd in
      elim (Outcome-cases (save_domain_pid name forked.0 (record w { os = forked.1 }))) [
        | inr (v, e) ↦ ground (arith, h, ok, e)
        | inl (r, v, e) ↦ ground (arith, h, ok, e)
      ]

  -- A pid with which fork answered the command of a domain in its role.
  abbrev pub IsForked : ColoStatus → ColoDomainStatus → Domain → ℤ → Type 0
  IsForked cs role dom pid =
      (s : O.State) × ((O.fork_exec s (colo_cmd role dom cs)).0 ≡ pid) × (is_negative pid ≡ false)

  -- The fields of a domain that a start in colo mode left.
  start_here-running :
      (name : String) (dom : Domain) (cds : ColoDomainStatus) (k : M RetVal) (w w' : World)
      (ret : RetVal)
      → ((d : ColodDomainStatus) → Keeps (IsRecorded name d) k)
      → start_here name dom cds k w ≡ returned ret w'
      → is_negative ret.code ≡ false
      → (pid : ℤ) × IsForked w.current_status cds dom pid
        × (Domains.get name w'.domains ≡ run_by pid (Domains.get name w.domains))
  unfolding start_here ◌>>=◌ set_domain
  start_here-running name dom cds k w w' ret kk h ok =
      elim (Outcome-cases (run_new_vm dom.name (colo_cmd cds dom w.current_status) w)) [
        | inr (v, e) ↦ ground (arith, e)
        | inl (pid, v, e) ↦
            let same = domains-returned (Keeps-run_new_vm (HasDomains-IsLocal w.domains) _ _) e in
            let d = run_by pid (Domains.get name v.domains) in
            let u = record v { domains = Domains.insert name d v.domains } in
            let left = ((kk d).at u (record { at = get-insert name d v.domains })).at in
            elim (Bool-cases (is_negative pid)) [
              | inl bad ↦ ground (arith, e, bad)
              | inr good ↦ (
                pid,
                (
                  w.os,
                  run_new_vm-forked dom.name (colo_cmd cds dom w.current_status) w v pid e good,
                  good,
                ),
                ground (arith, e, good, same, left),
              )
            ]
      ]

  pub start_colo-running :
      (name : String) (dom : Domain) (cur : ColoDomainStatus) (w w' : World) (ret : RetVal)
      → start_colo name dom cur w ≡ returned ret w'
      → is_negative ret.code ≡ false
      → (Domains.get name w.domains).colo_enable ≡ true
      → (pid : ℤ) × IsForked w.current_status cur dom pid
        × (Domains.get name w'.domains ≡ run_by pid (Domains.get name w.domains))
  unfolding start_colo ◌>>=◌ domain_at remote_call
  start_colo-running name dom cur w w' ret h ok on =
      let d = Domains.get name w.domains in
      let u = record w { domains = Domains.insert name d w.domains } in
      elim (Option-cases w.remote_address) [
        | inr e ↦ ground (arith, e, get-insert name d w.domains)
        | inl ((ip, port), e) ↦
            let k = pair cur name dom in
            let v = record u { os = (O.call w.os ip port (peer_start_domain name true)).1 } in
            let here : start_here name dom cur k v ≡ returned ret w' =
              ground (arith, e, get-insert name d w.domains) in
            let (pid, good, left) =
              start_here-running name dom cur k v w' ret (λ d'. IsRecorded-pair name d' cur dom)
                here ok in
            (pid, good, ground (arith, left, get-insert name d w.domains))
      ]
