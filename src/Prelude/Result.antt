-- ===== src/Prelude/Result.antt =====
-- A value, or the error that the code raises.
use mathlib.Core.Path.{◌≡◌}

pub data Result {ℓ κ} (E : Type ℓ) (A : Type κ) : Type (ℓ ⊔ κ) where
  ok : A → Result E A
  err : E → Result E A

infixl 5 ◌>>=◌
abbrev pub ◌>>=◌ {ℓ κ} : {E A : Type ℓ} {B : Type κ} → Result E A → (A → Result E B) → Result E B
ok a >>= f = f a
err e >>= f = err e

-- A result is one value.
pub ok_once : {E A : Type 0} {x y : A} (r : Result E A) → r ≡ ok x → r ≡ ok y → x ≡ y
ok_once r h k = cc
