-- ===== src/Service/Colo/Roles.antt =====
-- The roles that `colod_colo_enable` gives on the two nodes.
use colo_manage_tools.Prelude.{
  not, String, true, false, Bool, some, none, ◌≡◌, ◌⊎◌, ◌<>◌, refl, ◌∙◌, arith, inl, inr,
  is_negative, Bool-cases, Option-cases, if◌then◌else◌,
}
use colo_manage_tools.Config.{ColoDomainStatus, ColoStatus, NodeStatus, colod_port}
use colo_manage_tools.Platform.{Yaml, Os, ColodDomainStatus, RetVal, peer_save_domain}
use colo_manage_tools.Domains
use colo_manage_tools.Domains.{get-insert}
use colo_manage_tools.World.{
  World, Outcome-cases, returned, ◌>>=◌, ◌>>◌, domain_at, set_domain, set_remote_client,
  remote_call, succeed, on_option,
}
use colo_manage_tools.SaveFile.{set_domain_colo_enable}
use colo_manage_tools.Frame.{Keeps-set_domain_colo_enable}
use colo_manage_tools.Frame.Globals.{globals, HasGlobals-IsLocal, globals-returned}
use colo_manage_tools.Service.Status.{set_peer_init}
use colo_manage_tools.Service.Connect.{mirrored, opposite}
use colo_manage_tools.Service.Colo.{role_of, peer_domain, give_up, enable_as, colod_colo_enable}

-- The role that a node of this status has in a colo domain, as the enums spell it.
abbrev pub IsRoleOf : NodeStatus → ColoDomainStatus → Type 0
IsRoleOf s r =
    ((s ≡ NodeStatus.primary) × (r ≡ ColoDomainStatus.primary))
    ⊎ ((s ≡ NodeStatus.secondary) × (r ≡ ColoDomainStatus.secondary))

-- A node that is neither primary nor secondary.
abbrev pub IsRoleless : NodeStatus → Type 0
IsRoleless s = (¬ (s ≡ NodeStatus.primary)) × (¬ (s ≡ NodeStatus.secondary))

role_of-IsRoleOf : (s : NodeStatus) (r : ColoDomainStatus) → role_of s ≡ some r → IsRoleOf s r
unfolding role_of
role_of-IsRoleOf s r e = ground arith

role_of-IsRoleless : (s : NodeStatus) → role_of s ≡ none → IsRoleless s
unfolding role_of
role_of-IsRoleless s e = (λ x. ground arith, λ x. ground arith)

abbrev pub in_role : ColoDomainStatus → Bool → ColodDomainStatus → ColodDomainStatus
in_role role on d = record d { colo_enable = on; colo_status = role }

-- A domain that is colo-enabled in the role of one node is in the role of the other node on the peer.
pub peer_domain-IsRoleOf :
    (cs : ColoStatus) (ds : ColodDomainStatus)
    → ds.colo_enable ≡ true
    → IsRoleOf cs.local_status ds.colo_status
    → IsRoleOf (mirrored cs).local_status (peer_domain ds).colo_status
unfolding mirrored opposite peer_domain
peer_domain-IsRoleOf cs ds on h = elim h [
  | inl (e, f) ↦ inr (ground (arith, on, e, f), ground (arith, on, e, f))
  | inr (e, f) ↦ inl (ground (arith, on, e, f), ground (arith, on, e, f))
]

module _ ⦃Y : Yaml⦄ ⦃O : Os⦄ where
  -- The end of `enable_as`, where the domain is recorded already.
  mark_enabled :
      (name : String) (d : ColodDomainStatus) (w w' : World) (ret : RetVal)
      → d.colo_enable ≡ true
      → Domains.get name w.domains ≡ d
      → (domain_at name >>= λ ds'. set_domain_colo_enable name ds'.colo_status >>= λ r.
            if is_negative r
            then give_up name "can not set config file."
            else succeed ("build colo domain " <> name <> " success."))
          w
        ≡ returned ret w'
      → (Domains.get name w'.domains ≡ record d { colo_enable = not (is_negative ret.code) })
        × (w'.current_status ≡ w.current_status)
  unfolding domain_at give_up set_domain ◌>>=◌
  mark_enabled name d w w' ret on at h =
      let u = record w { domains = Domains.insert name (Domains.get name w.domains) w.domains } in
      let role = (Domains.get name w.domains).colo_status in
      elim (Outcome-cases (set_domain_colo_enable name role u)) [
        | inr (v, e) ↦ absurd (ground (arith, e))
        | inl (r, v, e) ↦
            let same =
              globals-returned
                (Keeps-set_domain_colo_enable (HasGlobals-IsLocal (globals u)) name role) e in
            let before = get-insert name (Domains.get name w.domains) w.domains in
            let off = record (Domains.get name v.domains) { colo_enable = false } in
            elim (Bool-cases (is_negative r)) [
              | inl bad ↦ ground (arith, e, bad, same, before, get-insert name off v.domains)
              | inr good ↦ ground (arith, e, good, same, before)
            ]
      ]

  -- The part of `enable_as` after the address of the client is set.
  ask_peer :
      (name : String) (d : ColodDomainStatus) (w w' : World) (ret : RetVal)
      → d.colo_enable ≡ true
      → Domains.get name w.domains ≡ d
      → (domain_at name >>= λ ds. remote_call (peer_save_domain ds) >>= λ reply.
            on_option reply
              (set_peer_init false >> give_up name "connect to peer colod timeout.")
              (λ crv.
                if is_negative crv.code
                then give_up name crv.msg
                else domain_at name >>= λ ds'. set_domain_colo_enable name ds'.colo_status >>= λ r.
                    if is_negative r
                    then give_up name "can not set config file."
                    else succeed ("build colo domain " <> name <> " success.")))
          w
        ≡ returned ret w'
      → (Domains.get name w'.domains ≡ record d { colo_enable = not (is_negative ret.code) })
        × (w'.current_status ≡ w.current_status)
  unfolding domain_at remote_call give_up set_domain ◌>>=◌
  ask_peer name d w w' ret on at h =
      let ds = Domains.get name w.domains in
      let u = Domains.insert name ds w.domains in
      let before = get-insert name ds w.domains in
      let off = record (Domains.get name u) { colo_enable = false } in
      elim (Option-cases w.remote_address) [
        | inr e ↦ absurd (ground (arith, e))
        | inl ((ip, port), e) ↦
            let answer = O.call w.os ip port (peer_save_domain ds) in
            elim (Option-cases answer.0) [
              | inr lost ↦ ground (arith, e, lost, before, get-insert name off u)
              | inl (crv, came) ↦ elim (Bool-cases (is_negative crv.code)) [
                | inl bad ↦ ground (arith, e, came, bad, before, get-insert name off u)
                | inr good ↦
                    mark_enabled name d (record w { domains = u; os = answer.1 }) w' ret on
                      (before ∙ at) (ground (arith, e, came, good))
              ]
            ]
      ]

  -- A return of `colod_colo_enable` leaves the domain in the role of the node, primary on a primary
  -- and secondary on a secondary, colo-enabled where it answers no error and not where it does, and
  -- the status of the node as before in both cases; on a node that is neither primary nor secondary it
  -- answers -1 and changes nothing.
  pub colod_colo_enable-recorded :
      (name : String) (w w' : World) (ret : RetVal)
      → colod_colo_enable name w ≡ returned ret w'
      → ((role : ColoDomainStatus) × IsRoleOf w.current_status.local_status role
          × (Domains.get name w'.domains
              ≡ in_role role (not (is_negative ret.code)) (Domains.get name w.domains))
          × (w'.current_status ≡ w.current_status))
        ⊎ (IsRoleless w.current_status.local_status × (is_negative ret.code ≡ true) × (w' ≡ w))
  unfolding colod_colo_enable enable_as set_domain set_remote_client ◌>>=◌
  colod_colo_enable-recorded name w w' ret h =
      elim (Option-cases (role_of w.current_status.local_status)) [
        | inr e ↦ inr (
          role_of-IsRoleless w.current_status.local_status e,
          ground (arith, e),
          ground (arith, e),
        )
        | inl (role, e) ↦
            let d = in_role role true (Domains.get name w.domains) in
            let u = record w { domains = Domains.insert name d w.domains } in
            let at = get-insert name d w.domains in
            elim (Bool-cases w.remote_client_init) [
              | inl init ↦
                  let left = ask_peer name d u w' ret refl at (ground (arith, e, init)) in
                  inl (role, role_of-IsRoleOf w.current_status.local_status role e, left.0, left.1)
              | inr init ↦
                  let v = record u {
                    remote_address = some (w.current_status.peer_ip, colod_port);
                  } in
                  let left = ask_peer name d v w' ret refl at (ground (arith, e, init)) in
                  inl (role, role_of-IsRoleOf w.current_status.local_status role e, left.0, left.1)
            ]
      ]
