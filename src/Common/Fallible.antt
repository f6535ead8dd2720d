-- ===== src/Common/Fallible.antt =====
-- What a bounded loop gives: a result, the error return -1, or a bound that did not suffice.
use mathlib.Core.Path.{◌≡◌, refl}
use mathlib.Core.Logic.{◌⊎◌, inl, inr}
use mathlib.Core.Option.{Option, none, some}

pub data Outcome {ℓ} (A : Type ℓ) : Type ℓ where
  ok : A → Outcome A
  err : Outcome A
  stuck : Outcome A

-- The caller of a loop sees a result or -1.
abbrev pub settle {ℓ} : {A : Type ℓ} → Outcome A → Option A
settle (ok a) = some a
settle err = none
settle stuck = none

pub Outcome-cases {ℓ} : {A : Type ℓ} (r : Outcome A) → ((a : A) × (r ≡ ok a)) ⊎ (settle r ≡ none)
Outcome-cases (ok a) = inl (a, refl)
Outcome-cases err = inr refl
Outcome-cases stuck = inr refl
