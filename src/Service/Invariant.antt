-- ===== src/Service/Invariant.antt =====
-- What the handlers keep of the globals of src/utils/colod_service.cpp.
pub mod Rules
pub mod Handlers
pub mod Serve
use mathlib.Core.Option
use colo_manage_tools.Prelude.{
  String, Bool, true, false, Option, none, some, is_negative, ◌≡◌, ◌≢◌, refl, arith,
}
use colo_manage_tools.Config.{ColoDomainStatus, is_colo_enabled}
use colo_manage_tools.Platform.{Yaml, Os, ColodDomainStatus}
use colo_manage_tools.Domains
use colo_manage_tools.World.{World}

-- A colo-enabled domain has a role, and one that runs in colo mode has the pid of a process.
pub record IsSound (d : ColodDomainStatus) : Type 0 where
  pub roled : d.colo_enable ≡ true → d.colo_status ≢ ColoDomainStatus.none
  pub started : is_colo_enabled d.status ≡ true → is_negative d.pid ≡ false

module _ ⦃Y : Yaml⦄ ⦃O : Os⦄ where
  -- The client has an address where the flags say so, and every domain is sound.
  pub record IsValid (w : World) : Type 0 where
    pub client : w.remote_client_init ≡ true → w.remote_address ≢ none
    pub peer : w.peer_init ≡ true → w.remote_address ≢ none
    pub sound : (k : String) → IsSound (Domains.get k w.domains)

  -- A valid world in which the client has an address.
  pub record IsReachable (w : World) : Type 0 where
    pub valid : IsValid w
    pub address : w.remote_address ≢ none
