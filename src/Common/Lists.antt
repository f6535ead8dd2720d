-- ===== src/Common/Lists.antt =====
-- Lists measured and indexed by native numbers, under the library's names, and byte strings.
use Prim.Native.Nat.{◌-◌, ℕ, zero, suc, ◌+◌, ◌<◌, min}
use mathlib.Core.Path.{◌≡◌, refl, ap}
use mathlib.Core.Logic.{◌↔◌}
use mathlib.Core.Bool.{Bool, true, false, ◌&&◌}
use mathlib.Core.List.{List, [], ◌∷◌, ◌++◌}
use native.Mathlib.Omega.{arith}
use personal_test_resolver.Common.Tests.{◌==◌}

-- A byte string: numbers below 256. A C string is one that holds no 0.
abbrev pub Bytes : Type 0
Bytes = List ℕ

abbrev pub All {ℓ κ} : {A : Type ℓ} → (A → Type κ) → List A → Type κ
All P [] = Unit
All P (x ∷ xs) = P x × All P xs

abbrev pub IsByte : ℕ → Type 0
IsByte b = b < 256

module _ {ℓ} {A : Type ℓ} where
  abbrev pub length : List A → ℕ
  length [] = 0
  length (x ∷ xs) = suc (length xs)

  abbrev pub get_or : List A → ℕ → A → A
  get_or [] i d = d
  get_or (x ∷ xs) zero d = x
  get_or (x ∷ xs) (suc i) d = get_or xs i d

  abbrev pub take : ℕ → List A → List A
  take zero xs = []
  take (suc n) [] = []
  take (suc n) (x ∷ xs) = x ∷ take n xs

  abbrev pub drop : ℕ → List A → List A
  drop zero xs = xs
  drop (suc n) [] = []
  drop (suc n) (x ∷ xs) = drop n xs

  pub length-append : (xs ys : List A) → length (xs ++ ys) ≡ length xs + length ys
  length-append [] ys = omega arith
  length-append (x ∷ xs) ys = omega (arith, length-append xs ys)

  pub length-take : (n : ℕ) (xs : List A) → length (take n xs) ≡ min n (length xs)
  length-take zero xs = omega arith
  length-take (suc n) [] = omega arith
  length-take (suc n) (x ∷ xs) = omega (arith, length-take n xs)

-- Equality of byte strings, as `strcmp(a, b) == 0` on C strings.
unfoldable pub equal : Bytes → Bytes → Bool
equal [] [] = true
equal (x ∷ xs) (y ∷ ys) = x == y && equal xs ys
equal _ _ = false

pub equal_iff : (a b : Bytes) → (equal a b ≡ true) ↔ (a ≡ b)
unfolding equal
equal_iff [] [] = ground arith
equal_iff [] (y ∷ b) = ground arith
equal_iff (x ∷ a) [] = ground arith
equal_iff (x ∷ a) (y ∷ b) = ground (arith, equal_iff a b)

-- Over a small range, a test holds of every value if it evaluates to true at each.
unfoldable pub table : (ℕ → Bool) → ℕ → Bool
table test zero = true
table test (suc size) = table test size && test size

pub table_entry : (test : ℕ → Bool) (size i : ℕ) → i < size → table test size ≡ true → test i ≡ true
unfolding table
table_entry test zero i inside holds = absurd (omega arith)
table_entry test (suc size) i inside holds = ground (arith, table_entry test size i, inside)

pub get_or-IsByte : (xs : Bytes) (i : ℕ) → All IsByte xs → IsByte (get_or xs i 0)
get_or-IsByte [] i h = omega arith
get_or-IsByte (x ∷ xs) zero h = h.0
get_or-IsByte (x ∷ xs) (suc i) h = get_or-IsByte xs i h.1

pub length-drop {ℓ} : {A : Type ℓ} (n : ℕ) (xs : List A) → length (drop n xs) ≡ length xs - n
length-drop zero xs = omega arith
length-drop (suc n) [] = omega arith
length-drop (suc n) (x ∷ xs) = omega (arith, length-drop n xs)

-- What stands behind a front, and the front itself.
pub get_or-append :
    (front back : Bytes) (x i : ℕ) → i ≡ length front → get_or (front ++ (x ∷ back)) i 0 ≡ x
get_or-append [] back x zero e = refl
get_or-append [] back x (suc i) e = absurd (omega arith)
get_or-append (y ∷ front) back x zero e = absurd (omega arith)
get_or-append (y ∷ front) back x (suc i) e = get_or-append front back x i (omega arith)

pub drop-append : (front back : Bytes) (i : ℕ) → i ≡ length front → drop i (front ++ back) ≡ back
drop-append [] back zero e = refl
drop-append [] back (suc i) e = absurd (omega arith)
drop-append (y ∷ front) back zero e = absurd (omega arith)
drop-append (y ∷ front) back (suc i) e = drop-append front back i (omega arith)

pub take-append : (front back : Bytes) (i : ℕ) → i ≡ length front → take i (front ++ back) ≡ front
take-append [] back zero e = refl
take-append (y ∷ front) back zero e = absurd (omega arith)
take-append [] back (suc i) e = absurd (omega arith)
take-append (y ∷ front) back (suc i) e = ap (◌∷◌ y) (take-append front back i (omega arith))

pub All-append {ℓ κ} :
    {A : Type ℓ} (P : A → Type κ) (xs ys : List A) → All P xs → All P ys → All P (xs ++ ys)
All-append P [] ys h k = k
All-append P (x ∷ xs) ys h k = (h.0, All-append P xs ys h.1 k)

pub All-take {ℓ κ} :
    {A : Type ℓ} (P : A → Type κ) (n : ℕ) (xs : List A) → All P xs → All P (take n xs)
All-take P zero xs h = tt
All-take P (suc n) [] h = tt
All-take P (suc n) (x ∷ xs) h = (h.0, All-take P n xs h.1)

pub All-drop {ℓ κ} :
    {A : Type ℓ} (P : A → Type κ) (n : ℕ) (xs : List A) → All P xs → All P (drop n xs)
All-drop P zero xs h = h
All-drop P (suc n) [] h = tt
All-drop P (suc n) (x ∷ xs) h = All-drop P n xs h.1
