-- ===== src/Service/Colo/Agree.antt =====
-- What `colod_colo_enable` and the call that it makes on the peer leave on the two nodes.
use colo_manage_tools.Prelude.{
  String, not, true, false, ◌≡◌, ap, sym, ◌∙◌, arith, inl, inr, is_negative,
}
use colo_manage_tools.Config.{ColoStatus}
use colo_manage_tools.Platform.{Yaml, Os, ColodDomainStatus, RetVal}
use colo_manage_tools.Domains
use colo_manage_tools.World.{World, Outcome-cases, returned, ◌>>=◌, set_domain}
use colo_manage_tools.SaveFile.{save_domain_info, set_domain_colo_enable}
use colo_manage_tools.Frame.{Keeps-save_domain_info, Keeps-set_domain_colo_enable}
use colo_manage_tools.Frame.Globals.{globals, HasGlobals-IsLocal, globals-returned}
use colo_manage_tools.Domain.{Domain}
use colo_manage_tools.Domain.Qmp.{generate_pvm_qmpcmd, generate_svm_qmpcmd}
use colo_manage_tools.Service.Connect.{mirrored}
use colo_manage_tools.Service.Connect.Mirror.{IsPaired, generate-mirrored}
use colo_manage_tools.Service.Colo.{peer_domain, colod_colo_enable, peer_colod_save_domain}
use colo_manage_tools.Service.Colo.Roles.{
  IsRoleOf, peer_domain-IsRoleOf, colod_colo_enable-recorded,
}
use colo_manage_tools.Service.Colo.Peer.{peer_colod_save_domain-recorded}

-- A domain that is colo-enabled in the role that the status of its node gives.
abbrev pub IsInRole : ColoStatus → ColodDomainStatus → Type 0
IsInRole cs ds = (ds.colo_enable ≡ true) × IsRoleOf cs.local_status ds.colo_status

-- The record that a peer makes of a domain keeps its name and stays colo-enabled.
peer_domain-same :
    (ds : ColodDomainStatus)
    → ((peer_domain ds).name ≡ ds.name) × ((peer_domain ds).colo_enable ≡ ds.colo_enable)
unfolding peer_domain
peer_domain-same ds = ground arith

peer_domain-IsInRole :
    (cs : ColoStatus) (ds : ColodDomainStatus)
    → IsInRole cs ds
    → IsInRole (mirrored cs) (peer_domain ds)
peer_domain-IsInRole cs ds h = ((peer_domain-same ds).1 ∙ h.0, peer_domain-IsRoleOf cs ds h.0 h.1)

IsRoleOf-IsPaired :
    (cs : ColoStatus) (ds : ColodDomainStatus)
    → IsRoleOf cs.local_status ds.colo_status
    → IsPaired cs
IsRoleOf-IsPaired cs ds h = elim h [
  | inl (e, f) ↦ inl (ground (arith, e))
  | inr (e, f) ↦ inr (ground (arith, e))
]

module _ ⦃Y : Yaml⦄ ⦃O : Os⦄ where
  -- A domain is saved by a peer without a change to the status of the node.
  peer_colod_save_domain-status :
      (ds : ColodDomainStatus) (w w' : World) (ret : RetVal)
      → peer_colod_save_domain ds w ≡ returned ret w'
      → w'.current_status ≡ w.current_status
  unfolding peer_colod_save_domain set_domain ◌>>=◌
  peer_colod_save_domain-status ds w w' ret h =
      let nds = peer_domain ds in
      let l = HasGlobals-IsLocal (globals w) in
      elim (Outcome-cases (save_domain_info nds w)) [
        | inr (v, e) ↦ absurd (ground (arith, e))
        | inl ((r, err), v, e) ↦
            let same = globals-returned (Keeps-save_domain_info l nds) e in
            elim (Outcome-cases (set_domain_colo_enable nds.name nds.colo_status v)) [
              | inr (u, f) ↦ ground (arith, e, f, same)
              | inl (r', u, f) ↦
                  let l' = HasGlobals-IsLocal (globals v) in
                  let same' =
                    globals-returned (Keeps-set_domain_colo_enable l' nds.name nds.colo_status) f in
                  ground (arith, e, f, same, same')
            ]
      ]

  -- A `colod_colo_enable` that answers no error leaves the domain colo-enabled in the role of the
  -- node.
  pub colod_colo_enable-IsInRole :
      (name : String) (w w' : World) (ret : RetVal)
      → colod_colo_enable name w ≡ returned ret w'
      → is_negative ret.code ≡ false
      → IsInRole w'.current_status (Domains.get name w'.domains)
        × (w'.current_status ≡ w.current_status)
        × ((Domains.get name w'.domains).name ≡ (Domains.get name w.domains).name)
  colod_colo_enable-IsInRole name w w' ret h ok =
      elim (colod_colo_enable-recorded name w w' ret h) [
        | inr (e, bad, same) ↦ absurd (ground (arith, ok, bad))
        | inl (role, e, at, same) ↦
            ((ap (λ d. d.colo_enable) at ∙ ap not ok, rw (same, at) e), same, ap (λ d. d.name) at)
      ]

  -- The two nodes generate the same QMP commands for both machines of a domain, each from its own
  -- status and its own record of the domain.
  abbrev pub HaveSameQmpCommands : Domain → World → World → String → Type 0
  HaveSameQmpCommands d w v name =
      (generate_pvm_qmpcmd d v.current_status (Domains.get name v.domains)
        ≡ generate_pvm_qmpcmd d w.current_status (Domains.get name w.domains))
      × (generate_svm_qmpcmd d v.current_status (Domains.get name v.domains)
          ≡ generate_svm_qmpcmd d w.current_status (Domains.get name w.domains))

  -- After a `colod_colo_enable` that answers no error, and the record of the domain that it leaves
  -- accepted on a peer that has the mirror image of the status of the node, the domain is
  -- colo-enabled on both nodes, on each in the role of this node, primary on a primary and secondary
  -- on a secondary, the peer still has the mirror image, and both nodes generate the same QMP
  -- commands for the machines of the domain, whatever its definition; the domain must be stored
  -- under its own name.
  pub colod_colo_enable-agree :
      (name : String) (w w' v v' : World) (ret ret' : RetVal)
      → colod_colo_enable name w ≡ returned ret w'
      → is_negative ret.code ≡ false
      → (Domains.get name w.domains).name ≡ name
      → v.current_status ≡ mirrored w.current_status
      → peer_colod_save_domain (Domains.get name w'.domains) v ≡ returned ret' v'
      → is_negative ret'.code ≡ false
      → IsInRole w'.current_status (Domains.get name w'.domains)
        × IsInRole v'.current_status (Domains.get name v'.domains)
        × (Domains.get name v'.domains ≡ peer_domain (Domains.get name w'.domains))
        × (v'.current_status ≡ mirrored w'.current_status)
        × ((d : Domain) → HaveSameQmpCommands d w' v' name)
  colod_colo_enable-agree name w w' v v' ret ret' h ok named pair h' ok' =
      let (here, same, kept) = colod_colo_enable-IsInRole name w w' ret h ok in
      let ds = Domains.get name w'.domains in
      let stored : Domains.get name v'.domains ≡ peer_domain ds =
        ap (λ n. Domains.get n v'.domains) (sym (kept ∙ named))
        ∙ peer_colod_save_domain-recorded ds v v' ret' h' ok' in
      let still : v'.current_status ≡ mirrored w'.current_status =
        peer_colod_save_domain-status ds v v' ret' h' ∙ pair ∙ ap mirrored (sym same) in
      let paired = IsRoleOf-IsPaired w'.current_status ds here.1 in
      (
        here,
        rw (still, stored) (peer_domain-IsInRole w'.current_status ds here),
        stored,
        still,
        λ d.
            let same = generate-mirrored d w'.current_status ds paired here.0 in
            rw (still, stored) (same.2, same.3),
      )
