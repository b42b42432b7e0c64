-- ===== src/Frame/Globals.antt =====
-- The functions below the handlers do not touch the globals of the service.
use colo_manage_tools.Prelude.{ℕ, String, Bool, Option, ◌≡◌, refl, ap, sym, ◌∙◌}
use colo_manage_tools.Config.{ColoStatus}
use colo_manage_tools.Platform.{Yaml, Os}
use colo_manage_tools.Domains.{Domains}
use colo_manage_tools.World.{World, returned, thrown, M}
use colo_manage_tools.World.Keeps.{Keeps, IsLocal, final}

-- The globals of src/utils/colod_service.cpp: a world without its files and operating system.
pub record Globals : Type 0 where
  pub current_status : ColoStatus
  pub domains : Domains
  pub remote_address : Option (String × ℕ)
  pub remote_client_init : Bool
  pub peer_init : Bool

module _ ⦃Y : Yaml⦄ ⦃O : Os⦄ where
  pub HasDomains-IsLocal : (ds : Domains) → IsLocal (λ w. w.domains ≡ ds)
  HasDomains-IsLocal ds = record { os = λ w s h. h; files = λ w fs h. h }

  -- The domains after a run that keeps them.
  pub domains-returned :
      {A : Type 0} {m : M A} {w w' : World} {a : A}
      → Keeps (λ v. v.domains ≡ w.domains) m
      → m w ≡ returned a w'
      → w'.domains ≡ w.domains
  domains-returned {w = w} k h = sym (ap (λ o. (final o).domains) h) ∙ k.at w refl

  pub domains-thrown :
      {A : Type 0} {m : M A} {w w' : World}
      → Keeps (λ v. v.domains ≡ w.domains) m
      → m w ≡ thrown w'
      → w'.domains ≡ w.domains
  domains-thrown {w = w} k h = sym (ap (λ o. (final o).domains) h) ∙ k.at w refl

  abbrev pub globals : World → Globals
  globals w = record {
    current_status = w.current_status;
    domains = w.domains;
    remote_address = w.remote_address;
    remote_client_init = w.remote_client_init;
    peer_init = w.peer_init;
  }

  pub HasGlobals-IsLocal : (g : Globals) → IsLocal (λ w. globals w ≡ g)
  HasGlobals-IsLocal g = record { os = λ w s h. h; files = λ w fs h. h }

  pub globals-returned :
      {A : Type 0} {m : M A} {w w' : World} {a : A}
      → Keeps (λ v. globals v ≡ globals w) m
      → m w ≡ returned a w'
      → globals w' ≡ globals w
  globals-returned {w = w} k h = sym (ap (λ o. globals (final o)) h) ∙ k.at w refl
