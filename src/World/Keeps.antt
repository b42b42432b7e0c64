-- ===== src/World/Keeps.antt =====
-- Invariants of the functions of the daemon, one rule for each way to build one.
use colo_manage_tools.Prelude.{
  String, ℕ, Bool, true, false, Option, none, some, ◌≡◌, refl, if◌then◌else◌,
}
use colo_manage_tools.Platform.{Yaml, Os, Request}
use colo_manage_tools.World.{
  World, Outcome, returned, thrown, M, pure, ◌>>=◌, on_option, lift, gets, modify, sys, load_file,
  write_file, truncate, set_remote_client, remote_call,
}

module _ ⦃Y : Yaml⦄ ⦃O : Os⦄ where
  -- The state after a run, also after one that ends in an exception.
  abbrev pub final : {A : Type 0} → Outcome A → World
  final (returned a w) = w
  final (thrown w) = w

  -- `m` keeps `P`, whether it returns or throws.
  pub record Keeps {A : Type 0} (P : World → Type 0) (m : M A) : Type 0 where
    pub at : (w : World) → P w → P (final (m w))

  -- An outcome under a test.
  pub final-if :
      {A : Type 0} (P : World → Type 0) (b : Bool) (o p : Outcome A)
      → P (final o)
      → P (final p)
      → P (final (if b then o else p))
  final-if P true o p h k = h
  final-if P false o p h k = k

  module _ {P : World → Type 0} where
    pub Keeps-pure : {A : Type 0} (a : A) → Keeps P (pure a)
    unfolding pure
    Keeps-pure a = record { at = λ w h. h }

    continue :
        {A B : Type 0} (f : A → M B) (r : Outcome A)
        → ((a : A) → Keeps P (f a))
        → P (final r)
        → P (final (elim r [ returned a w' ↦ f a w' | thrown w' ↦ thrown w' ]))
    continue f (returned a w) kf h = (kf a).at w h
    continue f (thrown w) kf h = h

    pub Keeps-bind :
        {A B : Type 0} (m : M A) (f : A → M B)
        → Keeps P m
        → ((a : A) → Keeps P (f a))
        → Keeps P (m >>= f)
    unfolding ◌>>=◌
    Keeps-bind m f km kf = record { at = λ w h. continue f (m w) kf (km.at w h) }

    -- The same from one world, where only the state that `m` leaves is known.
    pub final-bind :
        {A B : Type 0} (m : M A) (f : A → M B) (w : World)
        → ((a : A) → Keeps P (f a))
        → P (final (m w))
        → P (final ((m >>= f) w))
    unfolding ◌>>=◌
    final-bind m f w kf h = continue f (m w) kf h

    pub Keeps-if :
        {A : Type 0} (b : Bool) (m n : M A) → Keeps P m → Keeps P n → Keeps P (if b then m else n)
    Keeps-if true m n km kn = km
    Keeps-if false m n km kn = kn

    -- The branches may use the outcome of the test.
    pub Keeps-test :
        {A : Type 0} (b : Bool) (m n : M A)
        → (b ≡ true → Keeps P m)
        → (b ≡ false → Keeps P n)
        → Keeps P (if b then m else n)
    Keeps-test true m n km kn = km refl
    Keeps-test false m n km kn = kn refl

    pub Keeps-found :
        {A B : Type 0} (o : Option A) (m : M B) (k : A → M B)
        → Keeps P m
        → ((a : A) → o ≡ some a → Keeps P (k a))
        → Keeps P (on_option o m k)
    Keeps-found none m k km kk = km
    Keeps-found (some a) m k km kk = kk a refl

    pub Keeps-on_option :
        {A B : Type 0} (o : Option A) (m : M B) (k : A → M B)
        → Keeps P m
        → ((a : A) → Keeps P (k a))
        → Keeps P (on_option o m k)
    Keeps-on_option none m k km kk = km
    Keeps-on_option (some a) m k km kk = kk a

    pub Keeps-lift : {A : Type 0} (o : Option A) → Keeps P (lift o)
    unfolding lift
    Keeps-lift none = record { at = λ w h. h }
    Keeps-lift (some a) = record { at = λ w h. h }

    pub Keeps-gets : {A : Type 0} (f : World → A) → Keeps P (gets f)
    unfolding gets
    Keeps-gets f = record { at = λ w h. h }

    pub Keeps-load_file : (path : String) → Keeps P (load_file path)
    unfolding load_file
    Keeps-load_file path = record { at = λ w h. (Keeps-lift _).at w h }

  set_then :
      {A : Type 0} (P : World → Type 0) (b : Bool) (k : M A) (w u : World)
      → P w
      → P (final (k u))
      → P (
          final (elim (if b then returned tt u else thrown w) [
            | returned a w' ↦ k w'
            | thrown w' ↦ thrown w'
          ]))
  set_then P true k w u h kh = kh
  set_then P false k w u h kh = h

  -- From one world, where only what follows an address that was taken is known.
  pub final-set_remote_client :
      {A : Type 0} (P : World → Type 0) (ip : String) (port : ℕ) (k : M A) (w : World)
      → P w
      → P (final (k (record w { remote_address = some (ip, port) })))
      → P (final ((set_remote_client ip port >>= λ _. k) w))
  unfolding set_remote_client ◌>>=◌
  final-set_remote_client P ip port k w h kh = set_then P (O.is_endpoint w.os ip port) k w _ h kh

  -- A property that neither the files nor the operating system touch.
  pub record IsLocal (P : World → Type 0) : Type 0 where
    pub os : (w : World) (s : O.State) → P w → P (record w { os = s })
    pub files : (w : World) (fs : String → Option Y.Text) → P w → P (record w { files = fs })

  module _ {P : World → Type 0} where
    pub Keeps-sys : {A : Type 0} (f : O.State → A × O.State) → IsLocal P → Keeps P (sys f)
    unfolding sys
    Keeps-sys f l = record { at = λ w h. l.os w _ h }

    pub Keeps-write_file : (path : String) (n : Y.Node) → IsLocal P → Keeps P (write_file path n)
    unfolding write_file
    Keeps-write_file path n l = record { at = λ w h. l.files w _ h }

    pub Keeps-truncate : (path : String) → IsLocal P → Keeps P (truncate path)
    unfolding truncate
    Keeps-truncate path l = record { at = λ w h. l.files w _ h }

    call_from :
        (o : Option (String × ℕ)) (r : Request)
        → IsLocal P
        → Keeps P (λ w. elim o [
          | none ↦ thrown w
          | some (ip, port) ↦
              if O.call_throws w.os ip port r then thrown w else sys (λ s. O.call s ip port r) w
        ])
    call_from none r l = record { at = λ w h. h }
    call_from (some (ip, port)) r l = record {
      at = λ w h. final-if P (O.call_throws w.os ip port r) (thrown w) _ h ((Keeps-sys _ l).at w h);
    }

    pub Keeps-remote_call : (r : Request) → IsLocal P → Keeps P (remote_call r)
    unfolding remote_call
    Keeps-remote_call r l = record { at = λ w h. (call_from w.remote_address r l).at w h }

    pub Keeps-modify : (f : World → World) → ((w : World) → P w → P (f w)) → Keeps P (modify f)
    unfolding modify
    Keeps-modify f k = record { at = k }

pub ruleset keeps_rules = (
  Keeps-pure, Keeps-bind, Keeps-if, Keeps-on_option, Keeps-lift, Keeps-gets, Keeps-load_file,
  Keeps-sys, Keeps-write_file, Keeps-truncate, Keeps-remote_call,
)
