-- ===== src/Base/Options.antt =====
-- `none` is a panic, or the `None` of the code; a `do` block chains the steps that may give it.
use mathlib.Core.Option.{Option, none, some}

infixl 5 ◌>>=◌
abbrev pub ◌>>=◌ {ℓ κ} : {A : Type ℓ} {B : Type κ} → Option A → (A → Option B) → Option B
none >>= f = none
some a >>= f = f a
