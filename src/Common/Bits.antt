-- ===== src/Common/Bits.antt =====
-- Bit operations at variables: laws for the masks and shifts that the sources use.
use Prim.Native.Nat.{
  ℕ, zero, suc, ◌+◌, ◌*◌, ◌/◌, ◌%◌, ◌^◌, ◌≤◌, ◌<◌, min, max, bit_and, bit_or, digits,
  bit_and-bitwise, bit_or-bitwise,
}
use mathlib.Core.Path.{◌≡◌, refl, ap, ◌∙◌}
use native.Mathlib.Omega.{arith}
use native.Mathlib.Nat.{pow-suc, div-div-eq-div-mul, mul_comm, mul_assoc}

module _ (z : ℕ → ℕ) (f : ℕ → ℕ → ℕ) where
  -- The count of digits does not matter once it covers the first number.
  digits_enough : (a n m b : ℕ) → a ≤ n → a ≤ m → digits z f n a b ≡ digits z f m a b
  digits_enough a zero zero b p q = refl
  digits_enough zero zero (suc m) b p q = refl
  digits_enough zero (suc n) zero b p q = refl
  digits_enough zero (suc n) (suc m) b p q = refl
  digits_enough (suc a) zero (suc m) b p q = elim p [ ]
  digits_enough (suc a) (suc n) zero b p q = elim q [ ]
  digits_enough (suc a) (suc n) (suc m) b p q =
      omega (arith, digits_enough (suc a / 2) n m (b / 2) (omega arith) (omega arith))

-- Both operations by halves.
pub bit_and_halves : (x y : ℕ) → bit_and x y ≡ min (x % 2) (y % 2) + 2 * bit_and (x / 2) (y / 2)
bit_and_halves zero y = omega (arith, bit_and-bitwise 0 (y / 2), bit_and-bitwise 0 y)
bit_and_halves (suc x) y =
    let enough = digits_enough (λ _. zero) min (suc x / 2) x (suc x / 2) (y / 2) in
    let same = enough (omega arith) (omega arith) in
    omega (arith, same, bit_and-bitwise (suc x / 2) (y / 2), bit_and-bitwise (suc x) y)

pub bit_or_halves : (x y : ℕ) → bit_or x y ≡ max (x % 2) (y % 2) + 2 * bit_or (x / 2) (y / 2)
bit_or_halves zero y = omega (arith, bit_or-bitwise 0 (y / 2), bit_or-bitwise 0 y)
bit_or_halves (suc x) y =
    let enough = digits_enough (λ d. d) max (suc x / 2) x (suc x / 2) (y / 2) in
    let same = enough (omega arith) (omega arith) in
    omega (arith, same, bit_or-bitwise (suc x / 2) (y / 2), bit_or-bitwise (suc x) y)

bit_and-zero_upto : (n a : ℕ) → a ≤ n → bit_and a 0 ≡ 0
bit_and-zero_upto zero zero h = refl
bit_and-zero_upto zero (suc a) h = elim h [ ]
bit_and-zero_upto (suc n) a h =
    omega (arith, bit_and_halves a 0, bit_and-zero_upto n (a / 2) (omega arith))

bit_and-zero : (a : ℕ) → bit_and a 0 ≡ 0
bit_and-zero a = bit_and-zero_upto (suc a) a (omega arith)

-- The masks of low bits.
bit_and-0x1 : (a : ℕ) → bit_and a 0x1 ≡ a % 2
bit_and-0x1 a = omega (arith, bit_and_halves a 1, bit_and-zero (a / 2))

bit_and-0x3 : (a : ℕ) → bit_and a 0x3 ≡ a % 4
bit_and-0x3 a = omega (arith, bit_and_halves a 3, bit_and-0x1 (a / 2))

pub bit_and-0xf : (a : ℕ) → bit_and a 0x0f ≡ a % 16
bit_and-0xf a =
    omega (arith, bit_and_halves a 15, bit_and_halves (a / 2) 7, bit_and-0x3 (a / 2 / 2))

pub bit_and-0x3f : (a : ℕ) → bit_and a 0x3f ≡ a % 64
bit_and-0x3f a =
    omega (arith, bit_and_halves a 63, bit_and_halves (a / 2) 31, bit_and-0xf (a / 2 / 2))

pub bit_and-0xff : (a : ℕ) → bit_and a 0xff ≡ a % 256
bit_and-0xff a =
    omega (arith, bit_and_halves a 255, bit_and_halves (a / 2) 127, bit_and-0x3f (a / 2 / 2))

-- Single bits: a mask of one bit moves down to the lowest by halving.
bit_and-double : (a m : ℕ) → bit_and a (m * 2) ≡ bit_and (a / 2) m * 2
bit_and-double a m =
    let half : m * 2 / 2 ≡ m = omega arith in
    omega (arith, bit_and_halves a (m * 2), ap (bit_and (a / 2)) half)

pub bit_and-single : (k a : ℕ) → bit_and a (2 ^ k) ≡ a / 2 ^ k % 2 * 2 ^ k
bit_and-single zero a = omega (arith, bit_and-0x1 a)
bit_and-single (suc k) a = rw (pow-suc 2 k) (
    bit_and-double a (2 ^ k)
    ∙ rw (bit_and-single k (a / 2), div-div-eq-div-mul, mul_comm 2 (2 ^ k)) (mul_assoc _ _ _))

bit_or-zero_upto : (n a : ℕ) → a ≤ n → bit_or a 0 ≡ a
bit_or-zero_upto zero zero h = refl
bit_or-zero_upto zero (suc a) h = elim h [ ]
bit_or-zero_upto (suc n) a h =
    omega (arith, bit_or_halves a 0, bit_or-zero_upto n (a / 2) (omega arith))

pub bit_or-zero : (a : ℕ) → bit_or a 0 ≡ a
bit_or-zero a = bit_or-zero_upto (suc a) a (omega arith)

-- A number joined with the bits below it.
pub bit_or_join : (k h c : ℕ) → c < 2 ^ k → bit_or (h * 2 ^ k) c ≡ h * 2 ^ k + c
bit_or_join zero h c p =
    let none_below : c ≡ 0 = omega arith in rw none_below (omega (arith, bit_or-zero (h * 1)))
bit_or_join (suc k) h c p =
    let double : 2 ^ suc k ≡ 2 ^ k * 2 = pow-suc 2 k in
    let half : h * 2 ^ suc k / 2 ≡ h * 2 ^ k = rw double (omega arith) in
    omega (
      arith,
      bit_or_halves (h * 2 ^ suc k) c,
      ap (λ (t : ℕ). bit_or t (c / 2)) half,
      bit_or_join k h (c / 2) (omega arith),
      ap (λ (t : ℕ). h * t) double,
    )
