-- ===== src/Builtin/Dynamic/Capacity.antt =====
-- The capacity of a slice that grows.
use chat_server.Base.{
  ℕ, suc, ◌+◌, ◌*◌, ◌/◌, ◌%◌, ◌^◌, ◌≤◌, ◌<◌, ◌≡◌, ◌⊎◌, inl, inr, refl, false, some, arith, leb, ltb,
  Bool-cases,
}
use chat_server.Builtin.Slices.{u64}
use chat_server.Builtin.Dynamic.{threshold, next_cap, grow_cap, new_slice_cap}

-- Without a wrap a round adds at least a quarter.
grow_step :
    (left n c : ℕ)
    → c ≤ 2 ^ 63 + 2 ^ 62
    → (5 * c ≤ 4 * next_cap c)
      × (4 * next_cap c ≤ 5 * c + 768)
      × ((grow_cap (suc left) n c ≡ some (next_cap c)) × (n ≤ next_cap c)
          ⊎ (grow_cap (suc left) n c ≡ grow_cap left n (next_cap c)) × (next_cap c < n))
unfolding grow_cap
grow_step left n c le =
    let e : next_cap c ≡ c + (c + 768) / 4 = omega arith in
    (omega (arith, e), omega (arith, e), cases e)
  where
    cases :
        next_cap c ≡ c + (c + 768) / 4
        → (grow_cap (suc left) n c ≡ some (next_cap c)) × (n ≤ next_cap c)
          ⊎ (grow_cap (suc left) n c ≡ grow_cap left n (next_cap c)) × (next_cap c < n)
    cases e =
        let up : ltb (next_cap c) c ≡ false = rw e (ground arith) in
        elim (Bool-cases (leb n (next_cap c))) [
          | inl done ↦ inl (rw (up, done) refl, ground arith)
          | inr on ↦ inr (rw (up, on) refl, ground arith)
        ]

-- A capacity that the loop reaches.
abbrev Reaches : ℕ → ℕ → ℕ → Type 0
Reaches left n c = (cap : ℕ) × (grow_cap left n c ≡ some cap) × (n ≤ cap)

step-Reaches :
    (left n c : ℕ)
    → c ≤ 2 ^ 63 + 2 ^ 62
    → ((5 * c ≤ 4 * next_cap c)
        → (4 * next_cap c ≤ 5 * c + 768)
        → next_cap c < n
        → Reaches left n (next_cap c))
    → Reaches (suc left) n c
step-Reaches left n c le more =
    let (a, b, s) = grow_step left n c le in
    elim s [ inl (e, h) ↦ (next_cap c, e, h) | inr (e, h) ↦ rw e (more a b h) ]

grow_cap_enough : (n c : ℕ) → c ≤ 2 ^ 62 → n ≤ 2 * c → Reaches 4 n c
grow_cap_enough n c le small = step-Reaches 3 n c (omega arith) (λ a1 b1 h1.
    step-Reaches 2 n _ (omega (arith, b1)) (λ a2 b2 h2.
      step-Reaches 1 n _ (omega (arith, b1, b2)) (λ a3 b3 h3.
        step-Reaches 0 n _ (omega (arith, b1, b2, b3))
          (λ a4 b4 h4. absurd (omega (arith, a1, a2, a3, a4, h4))))))

-- For an old capacity of at most 2 ^ 62 the loop of `new_slice_cap` ends within four rounds, and the
-- capacity is large enough for the new length.
pub new_slice_cap_enough :
    (new_len old_cap : ℕ)
    → old_cap ≤ 2 ^ 62
    → (cap : ℕ) × (new_slice_cap new_len old_cap ≡ some cap) × (new_len ≤ cap)
unfolding new_slice_cap
new_slice_cap_enough n c le =
    let e : (c + c) % u64 ≡ 2 * c = omega arith in
    rw e (elim (Bool-cases (ltb (2 * c) n)) [
      | inl far ↦ rw far (n, refl, omega arith)
      | inr near ↦ rw near (elim (Bool-cases (ltb c threshold)) [
        | inl small ↦ rw small (2 * c, refl, ground arith)
        | inr large ↦ rw large (grow_cap_enough n c le (ground arith))
      ])
    ])
