-- ===== src/World/Filed.antt =====
-- Invariants of the files alone: the functions that touch no file keep them. One rule for each.
use colo_manage_tools.Prelude.{if◌then◌else◌, ℕ, String, true, false, Option, none, some, ◌≡◌, refl}
use colo_manage_tools.Config.{ColoStatus}
use colo_manage_tools.Platform.{Yaml, Os, ColodDomainStatus, Request}
use colo_manage_tools.World.{
  World, returned, thrown, sys, modify, domain_at, set_domain, erase_domain, set_remote_client,
  remote_call,
}
use colo_manage_tools.World.Keeps.{
  final-if, Keeps, Keeps-pure, Keeps-bind, Keeps-if, Keeps-on_option, Keeps-lift, Keeps-gets,
  Keeps-load_file,
}

module _ ⦃Y : Yaml⦄ ⦃O : Os⦄ where
  pub record IsFiled (P : World → Type 0) : Type 0 where
    pub same : (w w' : World) → w.files ≡ w'.files → P w → P w'

  module _ {P : World → Type 0} (l : IsFiled P) where
    pub Filed-sys : {A : Type 0} (f : O.State → A × O.State) → Keeps P (sys f)
    unfolding sys
    Filed-sys f = record { at = λ w h. l.same w _ refl h }

    pub Filed-domain_at : (k : String) → Keeps P (domain_at k)
    unfolding domain_at
    Filed-domain_at k = record { at = λ w h. l.same w _ refl h }

    pub Filed-set_domain :
        (k : String) (f : ColodDomainStatus → ColodDomainStatus) → Keeps P (set_domain k f)
    unfolding set_domain
    Filed-set_domain k f = record { at = λ w h. l.same w _ refl h }

    pub Filed-erase_domain : (k : String) → Keeps P (erase_domain k)
    unfolding erase_domain
    Filed-erase_domain k = record { at = λ w h. l.same w _ refl h }

    pub Filed-peer_lost : Keeps P (modify (λ w. record w { peer_init = false }))
    unfolding modify
    Filed-peer_lost = record { at = λ w h. l.same w _ refl h }

    pub Filed-peer_found : Keeps P (modify (λ w. record w { peer_init = true }))
    unfolding modify
    Filed-peer_found = record { at = λ w h. l.same w _ refl h }

    pub Filed-status : (cs : ColoStatus) → Keeps P (modify (λ w. record w { current_status = cs }))
    unfolding modify
    Filed-status cs = record { at = λ w h. l.same w _ refl h }

    pub Filed-client_init : Keeps P (modify (λ w. record w { remote_client_init = true }))
    unfolding modify
    Filed-client_init = record { at = λ w h. l.same w _ refl h }

    pub Filed-close : (f : O.State → O.State) → Keeps P (modify (λ w. record w { os = f w.os }))
    unfolding modify
    Filed-close f = record { at = λ w h. l.same w _ refl h }

    pub Filed-set_remote_client : (ip : String) (port : ℕ) → Keeps P (set_remote_client ip port)
    unfolding set_remote_client
    Filed-set_remote_client ip port = record {
      at = λ w h.
          final-if P (O.is_endpoint w.os ip port) (returned tt _) (thrown w) (l.same w _ refl h) h;
    }

    call_from :
        (o : Option (String × ℕ)) (r : Request)
        → Keeps P (λ w. elim o [
          | none ↦ thrown w
          | some (ip, port) ↦
              if O.call_throws w.os ip port r then thrown w else sys (λ s. O.call s ip port r) w
        ])
    call_from none r = record { at = λ w h. h }
    call_from (some (ip, port)) r = record {
      at = λ w h. final-if P (O.call_throws w.os ip port r) (thrown w) _ h ((Filed-sys _).at w h);
    }

    pub Filed-remote_call : (r : Request) → Keeps P (remote_call r)
    unfolding remote_call
    Filed-remote_call r = record { at = λ w h. (call_from w.remote_address r).at w h }

pub ruleset filed_rules = (
  Keeps-pure, Keeps-bind, Keeps-if, Keeps-on_option, Keeps-lift, Keeps-gets, Keeps-load_file,
  Filed-sys, Filed-domain_at, Filed-set_domain, Filed-erase_domain, Filed-peer_lost,
  Filed-peer_found, Filed-status, Filed-client_init, Filed-set_remote_client, Filed-remote_call,
)
