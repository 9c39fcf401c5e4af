-- ===== src/Base/Bits.antt =====
-- The bit operations at variables: the step to the next digit, and masks of low bits.
use Prim.Native.Nat.{
  digits, differ, bit_and, bit_or, bit_xor, bit_and-bitwise, bit_or-bitwise, bit_xor-bitwise, min,
  max, ℕ, zero, suc, ◌+◌, ◌-◌, ◌*◌, ◌/◌, ◌%◌, ◌^◌, ◌≤◌, ◌<◌,
}
use mathlib.Core.Path.{◌≡◌, refl, ap}
use mathlib.Core.Logic.{◌↔◌}
use native.Mathlib.Omega.{arith}
use native.Mathlib.Nat.{pow-suc, one-le-pow}

-- The recursion on digits does not depend on its count of rounds, once that is large enough.
module _ (z : ℕ → ℕ) (f : ℕ → ℕ → ℕ) where
  rounds : (n m a b : ℕ) → a ≤ n → a ≤ m → digits z f n a b ≡ digits z f m a b
  rounds zero zero a b p q = refl
  rounds zero (suc m) zero b p q = refl
  rounds zero (suc m) (suc a) b p q = absurd (omega arith)
  rounds (suc n) zero zero b p q = refl
  rounds (suc n) zero (suc a) b p q = absurd (omega arith)
  rounds (suc n) (suc m) zero b p q = refl
  rounds (suc n) (suc m) (suc a) b p q =
      omega (arith, rounds n m (suc a / 2) (b / 2) (omega arith) (omega arith))

pub bit_and_step : (a b : ℕ) → bit_and a b ≡ bit_and (a / 2) (b / 2) * 2 + min (a % 2) (b % 2)
bit_and_step zero b = omega (arith, bit_and-bitwise 0 b, bit_and-bitwise 0 (b / 2))
bit_and_step (suc a) b = omega (
  arith,
  bit_and-bitwise (suc a) b,
  bit_and-bitwise (suc a / 2) (b / 2),
  rounds (λ b. zero) min a (suc a / 2) (suc a / 2) (b / 2) (omega arith) (omega arith),
)

pub bit_or_step : (a b : ℕ) → bit_or a b ≡ bit_or (a / 2) (b / 2) * 2 + max (a % 2) (b % 2)
bit_or_step zero b = omega (arith, bit_or-bitwise 0 b, bit_or-bitwise 0 (b / 2))
bit_or_step (suc a) b = omega (
  arith,
  bit_or-bitwise (suc a) b,
  bit_or-bitwise (suc a / 2) (b / 2),
  rounds (λ b. b) max a (suc a / 2) (suc a / 2) (b / 2) (omega arith) (omega arith),
)

differ_digits : (x y : ℕ) → x < 2 → y < 2 → differ x y ≡ (x + y) % 2
differ_digits zero y p q = omega arith
differ_digits (suc zero) zero p q = omega arith
differ_digits (suc zero) (suc zero) p q = omega arith
differ_digits (suc zero) (suc (suc y)) p q = absurd (omega arith)
differ_digits (suc (suc x)) y p q = absurd (omega arith)

pub bit_xor_step : (a b : ℕ) → bit_xor a b ≡ bit_xor (a / 2) (b / 2) * 2 + (a % 2 + b % 2) % 2
bit_xor_step zero b = omega (arith, bit_xor-bitwise 0 b, bit_xor-bitwise 0 (b / 2))
bit_xor_step (suc a) b = omega (
  arith,
  bit_xor-bitwise (suc a) b,
  bit_xor-bitwise (suc a / 2) (b / 2),
  rounds (λ b. b) differ a (suc a / 2) (suc a / 2) (b / 2) (omega arith) (omega arith),
  differ_digits (suc a % 2) (b % 2) (omega arith) (omega arith),
)

bit_and-zero_rounds : (n a : ℕ) → a ≤ n → bit_and a 0 ≡ 0
bit_and-zero_rounds n zero h = refl
bit_and-zero_rounds zero (suc a) h = absurd (omega arith)
bit_and-zero_rounds (suc n) (suc a) h =
    omega (arith, bit_and_step (suc a) 0, bit_and-zero_rounds n (suc a / 2) (omega arith))

mod-double : (a m : ℕ) → 0 < m → a % (2 * m) ≡ 2 * (a / 2 % m) + a % 2
mod-double a m h = grind arith

-- A mask of k ones keeps the remainder by 2 ^ k.
pub bit_and-mask : (k a : ℕ) → bit_and a (2 ^ k - 1) ≡ a % 2 ^ k
bit_and-mask zero a = omega (arith, bit_and-zero_rounds a a (omega arith))
bit_and-mask (suc k) a =
    let double : 2 ^ suc k ≡ 2 * 2 ^ k = omega (arith, pow-suc 2 k) in
    let pos : 0 < 2 ^ k = one-le-pow k 2 (omega arith) in
    let half : (2 ^ suc k - 1) / 2 ≡ 2 ^ k - 1 = omega arith in
    let low : (2 ^ suc k - 1) % 2 ≡ 1 = omega arith in
    rw (bit_and_step a (2 ^ suc k - 1), half, low, bit_and-mask k (a / 2), double)
      (omega (arith, mod-double a (2 ^ k) pos))

pub bit_and_seven : (a : ℕ) → bit_and a 7 ≡ a % 8
bit_and_seven a = bit_and-mask 3 a

-- Both numbers are multiples of 8.
pub low_or : (a b : ℕ) → (bit_and (bit_or a b) 7 ≡ 0) ↔ ((a % 8 ≡ 0) × (b % 8 ≡ 0))
low_or a b = (
  λ h. omega (
    arith,
    h,
    bit_and_seven (bit_or a b),
    bit_or_step a b,
    bit_or_step (a / 2) (b / 2),
    bit_or_step (a / 2 / 2) (b / 2 / 2),
  ),
  λ h. omega (
    arith,
    bit_and_seven (bit_or a b),
    bit_or_step a b,
    bit_or_step (a / 2) (b / 2),
    bit_or_step (a / 2 / 2) (b / 2 / 2),
  ),
)

-- The two numbers are equal modulo 8.
pub low_xor : (a b : ℕ) → (bit_and (bit_xor a b) 7 ≡ 0) ↔ (a % 8 ≡ b % 8)
low_xor a b = (
  λ h. omega (
    arith,
    h,
    bit_and_seven (bit_xor a b),
    bit_xor_step a b,
    bit_xor_step (a / 2) (b / 2),
    bit_xor_step (a / 2 / 2) (b / 2 / 2),
  ),
  λ h. omega (
    arith,
    bit_and_seven (bit_xor a b),
    bit_xor_step a b,
    bit_xor_step (a / 2) (b / 2),
    bit_xor_step (a / 2 / 2) (b / 2 / 2),
  ),
)

bit_or-zero_rounds : (n a : ℕ) → a ≤ n → bit_or a 0 ≡ a
bit_or-zero_rounds n zero h = omega (arith, bit_or-bitwise 0 0)
bit_or-zero_rounds zero (suc a) h = absurd (omega arith)
bit_or-zero_rounds (suc n) (suc a) h =
    omega (arith, bit_or_step (suc a) 0, bit_or-zero_rounds n (suc a / 2) (omega arith))

-- Where the low bits of the one number are zero and the other has no high bits, `|` is their sum.
pub bit_or_apart : (k a b : ℕ) → b < 2 ^ k → bit_or (a * 2 ^ k) b ≡ a * 2 ^ k + b
bit_or_apart zero a b lt =
    let none_low : b ≡ 0 = omega arith in
    let whole : a * 1 ≡ a = omega arith in
    rw (none_low, whole) (omega (arith, bit_or-zero_rounds a a (omega arith)))
bit_or_apart (suc k) a b lt =
    let double : a * 2 ^ suc k ≡ 2 * (a * 2 ^ k) =
      omega (arith, ap (λ (t : ℕ). a * t) (pow-suc 2 k)) in
    let half : 2 * (a * 2 ^ k) / 2 ≡ a * 2 ^ k = omega arith in
    let low : 2 * (a * 2 ^ k) % 2 ≡ 0 = omega arith in
    let small : b / 2 < 2 ^ k = omega (arith, pow-suc 2 k) in
    rw (double, bit_or_step (2 * (a * 2 ^ k)) b, half, low, bit_or_apart k a (b / 2) small)
      (omega arith)
