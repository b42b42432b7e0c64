-- ===== src/World/Returns.antt =====
-- Functions of the daemon that come back: no exception ends them in a world with a property, and the
-- world that they leave has it again. One rule for each way to build a function.
use colo_manage_tools.Prelude.{
  String, Bool, true, false, Option, none, some, ◌≡◌, ◌∙◌, refl, if◌then◌else◌,
}
use colo_manage_tools.Config.{ColoStatus}
use colo_manage_tools.Platform.{Yaml, Os, ColodDomainStatus}
use colo_manage_tools.World.{
  World, returned, M, pure, ◌>>=◌, on_option, gets, modify, sys, domain_at, set_domain,
  erase_domain,
}

module _ ⦃Y : Yaml⦄ ⦃O : Os⦄ where
  pub record Returns {A : Type 0} (P : World → Type 0) (m : M A) : Type 0 where
    pub at : (w : World) → P w → (a : A) × (w' : World) × (m w ≡ returned a w') × P w'

  pub bind-returned :
      {A B : Type 0} (m : M A) (f : A → M B) (w w' : World) (a : A)
      → m w ≡ returned a w'
      → (m >>= f) w ≡ f a w'
  unfolding ◌>>=◌
  bind-returned m f w w' a e = rw (e, ◌>>=◌) refl

  module _ {P : World → Type 0} where
    pub Returns-pure : {A : Type 0} (a : A) → Returns P (pure a)
    unfolding pure
    Returns-pure a = record { at = λ w h. (a, w, refl, h) }

    pub Returns-bind :
        {A B : Type 0} (m : M A) (f : A → M B)
        → Returns P m
        → ((a : A) → Returns P (f a))
        → Returns P (m >>= f)
    Returns-bind m f rm rf = record {
      at = λ w h.
          let (a, w1, e, h1) = rm.at w h in
          let (b, w2, e2, h2) = (rf a).at w1 h1 in (b, w2, bind-returned m f w w1 a e ∙ e2, h2);
    }

    pub Returns-if :
        {A : Type 0} (b : Bool) (m n : M A)
        → Returns P m
        → Returns P n
        → Returns P (if b then m else n)
    Returns-if true m n rm rn = rm
    Returns-if false m n rm rn = rn

    pub Returns-on_option :
        {A B : Type 0} (o : Option A) (m : M B) (k : A → M B)
        → Returns P m
        → ((a : A) → Returns P (k a))
        → Returns P (on_option o m k)
    Returns-on_option none m k rm rk = rm
    Returns-on_option (some a) m k rm rk = rk a

    pub Returns-gets : {A : Type 0} (f : World → A) → Returns P (gets f)
    unfolding gets
    Returns-gets f = record { at = λ w h. (f w, w, refl, h) }

  -- A property of the files.
  pub record IsSteady (P : World → Type 0) : Type 0 where
    pub same : (w w' : World) → w.files ≡ w'.files → P w → P w'

  module _ {P : World → Type 0} (l : IsSteady P) where
    pub Returns-sys : {A : Type 0} (f : O.State → A × O.State) → Returns P (sys f)
    unfolding sys
    Returns-sys f = record { at = λ w h. (_, _, refl, l.same w _ refl h) }

    pub Returns-domain_at : (k : String) → Returns P (domain_at k)
    unfolding domain_at
    Returns-domain_at k = record { at = λ w h. (_, _, refl, l.same w _ refl h) }

    pub Returns-set_domain :
        (k : String) (f : ColodDomainStatus → ColodDomainStatus) → Returns P (set_domain k f)
    unfolding set_domain
    Returns-set_domain k f = record { at = λ w h. (_, _, refl, l.same w _ refl h) }

    pub Returns-erase_domain : (k : String) → Returns P (erase_domain k)
    unfolding erase_domain
    Returns-erase_domain k = record { at = λ w h. (_, _, refl, l.same w _ refl h) }

    pub Returns-peer_lost : Returns P (modify (λ w. record w { peer_init = false }))
    unfolding modify
    Returns-peer_lost = record { at = λ w h. (_, _, refl, l.same w _ refl h) }

    pub Returns-peer_found : Returns P (modify (λ w. record w { peer_init = true }))
    unfolding modify
    Returns-peer_found = record { at = λ w h. (_, _, refl, l.same w _ refl h) }

    pub Returns-status :
        (cs : ColoStatus) → Returns P (modify (λ w. record w { current_status = cs }))
    unfolding modify
    Returns-status cs = record { at = λ w h. (_, _, refl, l.same w _ refl h) }

    pub Returns-close : (f : O.State → O.State) → Returns P (modify (λ w. record w { os = f w.os }))
    unfolding modify
    Returns-close f = record { at = λ w h. (_, _, refl, l.same w _ refl h) }

pub ruleset returns_rules = (
  Returns-pure, Returns-bind, Returns-if, Returns-on_option, Returns-gets, Returns-sys,
  Returns-domain_at, Returns-set_domain, Returns-erase_domain, Returns-peer_lost,
  Returns-peer_found, Returns-status,
)
