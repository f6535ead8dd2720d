-- ===== src/Common/Slices.antt =====
-- Two byte strings that agree on a range.
use personal_test_resolver.Common.{
  ℕ, zero, suc, ◌+◌, ◌≤◌, ◌<◌, ◌≡◌, refl, [], ◌∷◌, ◌++◌, Bytes, length, take, drop, get_or, arith,
  ap,
}

-- The bytes of the two at the positions from `from` up to `to` are the same.
abbrev pub Agree : Bytes → Bytes → ℕ → ℕ → Type 0
Agree a b from to = (i : ℕ) → from ≤ i → i < to → get_or a i 0 ≡ get_or b i 0

drop_next : (xs : Bytes) (k : ℕ) → k < length xs → drop k xs ≡ get_or xs k 0 ∷ drop (suc k) xs
drop_next [] k h = absurd (omega arith)
drop_next (x ∷ xs) zero h = refl
drop_next (x ∷ xs) (suc k) h = drop_next xs k (omega arith)

pub Agree-slice :
    (a b : Bytes) (n k : ℕ) {from to : ℕ}
    → Agree a b from to
    → from ≤ k
    → k + n ≤ to
    → to ≤ length a
    → to ≤ length b
    → take n (drop k a) ≡ take n (drop k b)
Agree-slice a b zero k same low high la lb = refl
Agree-slice a b (suc n) k same low high la lb =
    let rest : take n (drop (suc k) a) ≡ take n (drop (suc k) b) =
      Agree-slice a b n (suc k) same (omega arith) (omega arith) la lb in
    rw (drop_next a k (omega arith), drop_next b k (omega arith), rest, same k low (omega arith))

pub get_or-behind :
    (front back : Bytes) (i j : ℕ)
    → i ≡ length front + j
    → get_or (front ++ back) i 0 ≡ get_or back j 0
get_or-behind [] back i j h = ap (λ k. get_or back k 0) (omega arith)
get_or-behind (x ∷ front) back zero j h = absurd (omega arith)
get_or-behind (x ∷ front) back (suc i) j h = get_or-behind front back i j (omega arith)

pub get_or-take : (n : ℕ) (xs : Bytes) (i : ℕ) → i < n → get_or (take n xs) i 0 ≡ get_or xs i 0
get_or-take zero xs i h = absurd (omega arith)
get_or-take (suc n) [] i h = refl
get_or-take (suc n) (x ∷ xs) zero h = refl
get_or-take (suc n) (x ∷ xs) (suc i) h = get_or-take n xs i (omega arith)

pub get_or-drop :
    (n : ℕ) (xs : Bytes) (i k : ℕ) → k ≡ n + i → get_or (drop n xs) i 0 ≡ get_or xs k 0
get_or-drop zero xs i k h = ap (λ j. get_or xs j 0) (omega arith)
get_or-drop (suc n) [] i k h = refl
get_or-drop (suc n) (x ∷ xs) i zero h = absurd (omega arith)
get_or-drop (suc n) (x ∷ xs) i (suc k) h = get_or-drop n xs i k (omega arith)
