-- ===== src/Prelude/Throws.antt =====
-- Pure code that may throw: `none` is the exception.
use colo_manage_tools.Prelude.{Option, none, some}

infixl 5 ◌>>=◌
abbrev pub ◌>>=◌ {ℓ κ} : {A : Type ℓ} {B : Type κ} → Option A → (A → Option B) → Option B
none >>= f = none
some a >>= f = f a
