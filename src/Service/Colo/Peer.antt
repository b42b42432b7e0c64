-- ===== src/Service/Colo/Peer.antt =====
-- What `peer_colod_save_domain` leaves behind.
use colo_manage_tools.Prelude.{false, ◌≡◌, arith, inl, inr, is_negative}
use colo_manage_tools.Platform.{Yaml, Os, ColodDomainStatus, RetVal}
use colo_manage_tools.Domains
use colo_manage_tools.Domains.{get-insert}
use colo_manage_tools.World.{World, Outcome-cases, returned, ◌>>=◌, set_domain}
use colo_manage_tools.SaveFile.{save_domain_info, set_domain_colo_enable}
use colo_manage_tools.Service.Colo.{peer_domain, peer_colod_save_domain}

module _ ⦃Y : Yaml⦄ ⦃O : Os⦄ where
  -- A peer that accepts the record of a domain stores this record under its name, whatever it had
  -- there: the pid and the status are those of the caller, and the role is the other one of the two where
  -- the domain is colo-enabled.
  pub peer_colod_save_domain-recorded :
      (ds : ColodDomainStatus) (w w' : World) (ret : RetVal)
      → peer_colod_save_domain ds w ≡ returned ret w'
      → is_negative ret.code ≡ false
      → Domains.get ds.name w'.domains ≡ peer_domain ds
  unfolding peer_colod_save_domain set_domain ◌>>=◌
  peer_colod_save_domain-recorded ds w w' ret h ok =
      let nds = peer_domain ds in
      elim (Outcome-cases (save_domain_info nds w)) [
        | inr (v, e) ↦ absurd (ground (arith, e))
        | inl ((r, err), v, e) ↦
            elim (Outcome-cases (set_domain_colo_enable nds.name nds.colo_status v)) [
              | inr (u, f) ↦ absurd (ground (arith, e, f))
              | inl (r', u, f) ↦ ground (arith, e, f, get-insert ds.name nds u.domains)
            ]
      ]
