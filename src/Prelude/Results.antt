-- ===== src/Prelude/Results.antt =====
-- How a Go call ends: with a value, with an `error`, or in a run-time panic.

use mathlib.Core.Bool.{Bool, true, false}

pub data Outcome {ℓ κ} (E : Type ℓ) (A : Type κ) : Type (ℓ ⊔ κ) where
  ok : A → Outcome E A
  err : E → Outcome E A
  panic : Outcome E A

module _ {ℓ κ} {E : Type ℓ} {A : Type κ} where
  abbrev pub is_ok : Outcome E A → Bool
  is_ok (ok a) = true
  is_ok (err e) = false
  is_ok panic = false

  abbrev pub is_panic : Outcome E A → Bool
  is_panic (ok a) = false
  is_panic (err e) = false
  is_panic panic = true
