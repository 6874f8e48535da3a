-- ===== src/Base/Partial.antt =====
-- A chain of steps that may run past the end of a buffer: `none` is the run that the sources leave
-- undefined.

use mathlib.Core.Option.{Option, none, some}

infixl 5 ◌>>=◌
abbrev pub ◌>>=◌ {ℓ κ} : {A : Type ℓ} {B : Type κ} → Option A → (A → Option B) → Option B
none >>= f = none
some a >>= f = f a
