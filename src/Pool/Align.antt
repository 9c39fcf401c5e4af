-- ===== src/Pool/Align.antt =====
-- `is_power_of_two` and `align_forward`.
use native.Mathlib.Nat.{
  one-le-pow, pow-le-pow_right, mod_self, mod-lt, div-add-mod, mul-mod_right, mul-add,
  mul-le-mul_left,
}
use chat_server.Base.{
  ℕ, ◌+◌, ◌-◌, ◌*◌, ◌/◌, ◌%◌, ◌^◌, ◌≤◌, ◌<◌, ◌≡◌, ap, ◌∙◌, true, some, arith, ◌==◌, if◌then◌else◌,
  Bool-cases, inl, inr,
}
use chat_server.Base.Bits.{bit_and-mask}
use chat_server.Builtin.Slices.{u64, sub64}
use chat_server.Pool.{is_power_of_two, align_forward}

-- The pointer itself, or plus what it lacks of a multiple of m.
up : ℕ → ℕ → ℕ
up p m = if p % m == 0 then p else p + (m - p % m)

up-mod : (p m : ℕ) → 0 < m → up p m % m ≡ 0
unfolding up
up-mod p m pos = elim (Bool-cases (p % m == 0)) [
  | inl z ↦ rw z (ground arith)
  | inr nz ↦
      let e : p + (m - p % m) ≡ m * (p / m + 1) =
        omega (arith, div-add-mod p m, mod-lt p pos, mul-add m (p / m) 1) in
      rw (nz, e) (mul-mod_right m (p / m + 1))
]

up-le : (p q m : ℕ) → 0 < m → q % m ≡ 0 → p ≤ q → up p m ≤ q
unfolding up
up-le p q m pos multiple le = elim (Bool-cases (p % m == 0)) [
  | inl z ↦ rw z le
  | inr nz ↦ rw nz (
      ground (
        arith,
        div-add-mod p m,
        div-add-mod q m,
        mod-lt p pos,
        mul-add m (p / m) 1,
        mul-le-mul_left {m = p / m + 1} {n = q / m} m,
        mul-le-mul_left {m = q / m} {n = p / m} m,
      ))
]

module _ (k : ℕ) (small : k < 64) where
  bound : 2 ^ k < u64
  bound = omega (arith, pow-le-pow_right {n = 2} (omega arith) {i = k} {j = 63} (omega arith))

  positive : 0 < 2 ^ k
  positive = one-le-pow k 2 (omega arith)

  sub64_mask : sub64 (2 ^ k) 1 ≡ 2 ^ k - 1
  sub64_mask = omega (arith, bound, positive)

  pub is_power_of_two_pow : is_power_of_two (2 ^ k) ≡ true
  unfolding is_power_of_two
  is_power_of_two_pow = rw (sub64_mask, bit_and-mask k (2 ^ k), mod_self (2 ^ k))

  -- What `align_forward` answers, for an alignment of 2 ^ k: the pointer plus what it lacks.
  align_forward-eq :
      (p : ℕ)
      → align_forward p (2 ^ k)
        ≡ some (if p % 2 ^ k == 0 then p else (p + sub64 (2 ^ k) (p % 2 ^ k)) % u64)
  unfolding align_forward
  align_forward-eq p = rw (is_power_of_two_pow, sub64_mask, bit_and-mask k p)

  -- For an alignment of 2 ^ k, k < 64, and where it does not wrap, `align_forward` answers the least
  -- address from p on that is a multiple of the alignment.
  pub align_forward_least :
      (p : ℕ)
      → p + 2 ^ k ≤ u64
      → (r : ℕ) × (align_forward p (2 ^ k) ≡ some r)
        × (r % 2 ^ k ≡ 0)
        × (p ≤ r)
        × ((q : ℕ) → q % 2 ^ k ≡ 0 → p ≤ q → r ≤ q)
  unfolding up
  align_forward_least p room = (
    up p (2 ^ k),
    align_forward-eq p ∙ ap some (ground (arith, mod-lt p positive, bound)),
    up-mod p (2 ^ k) positive,
    ground arith,
    λ q multiple le. up-le p q (2 ^ k) positive multiple le,
  )

-- A pointer that is a multiple of 8 is left as it is.
pub align_forward_aligned : (p : ℕ) → p % 8 ≡ 0 → align_forward p 8 ≡ some p
align_forward_aligned p h = align_forward-eq 3 (omega arith) p ∙ ap some (ground arith)
