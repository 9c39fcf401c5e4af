-- ===== src/Memory/Split.antt =====
-- Bytes up to the first one of a kind: as a list, and as the place where a scan over the memory
-- stops.
use chat_server.Base.{
  ℕ, zero, suc, ◌+◌, ◌-◌, ◌<◌, ◌≡◌, ◌⊎◌, inl, inr, refl, Bool, true, false, Option, none, some,
  List, [], ◌∷◌, ◌++◌, Option-cases, arith, Bool-cases, ltb,
}
use chat_server.Memory.{Mem, bytes}

-- What stands before the first item of the kind, and what behind it.
abbrev pub split_by {ℓ} : {A : Type ℓ} → (A → Bool) → List A → Option (List A × List A)
split_by p [] = none
split_by p (x ∷ xs) = elim (p x) [
  | true ↦ some ([], xs)
  | false ↦ elim (split_by p xs) [ none ↦ none | some (before, behind) ↦ some (x ∷ before, behind) ]
]

-- Everything, where there is none of the kind.
abbrev pub before {ℓ} : {A : Type ℓ} → (A → Bool) → List A → List A
before p xs = elim (split_by p xs) [ none ↦ xs | some (front, behind) ↦ front ]

pub before-none {ℓ} :
    {A : Type ℓ} (p : A → Bool) (xs : List A) → split_by p xs ≡ none → before p xs ≡ xs
before-none p xs e = rw (before, e) refl

-- The first of the kind is the one behind a list without any.
pub split_by-append {ℓ} :
    {A : Type ℓ} (p : A → Bool) (xs ys : List A) (x : A)
    → split_by p xs ≡ none
    → p x ≡ true
    → split_by p (xs ++ x ∷ ys) ≡ some (xs, ys)
split_by-append p [] ys x e hit = rw hit refl
split_by-append p (x' ∷ xs) ys x e hit = elim (Bool-cases (p x')) [
  | inl first ↦ let no : some ([], xs) ≡ none = rw (split_by, first) at e in absurd (cc)
  | inr other ↦ elim (Option-cases (split_by p xs)) [
    | inl without ↦ rw (other, split_by-append p xs ys x without hit) refl
    | inr (r, found) ↦
        let no : some (x' ∷ r.0, r.1) ≡ none = rw (split_by, other, found) at e in absurd (cc)
  ]
]

-- The first byte of the kind among n bytes stands at the offset k.
pub record IsFirst (p : ℕ → Bool) (m : Mem) (q n k : ℕ) : Type 0 where
  pub within : k < n
  pub hit : p (m (q + k)) ≡ true
  pub misses : (j : ℕ) → j < k → p (m (q + j)) ≡ false

misses_from :
    (p : ℕ → Bool) (m : Mem) (q k : ℕ)
    → p (m q) ≡ false
    → ((j : ℕ) → j < k → p (m (q + 1 + j)) ≡ false)
    → (j : ℕ) → j < suc k
    → p (m (q + j)) ≡ false
misses_from p m q k miss more zero lt = let e : q + 0 ≡ q = omega arith in rw e miss
misses_from p m q k miss more (suc j) lt =
    let e : q + suc j ≡ q + 1 + j = omega arith in rw e (more j (omega arith))

pub split_by-bytes :
    (p : ℕ → Bool) (m : Mem) (q n : ℕ)
    → ((split_by p (bytes m q n) ≡ none) × ((j : ℕ) → j < n → p (m (q + j)) ≡ false))
      ⊎ ((k : ℕ) × IsFirst p m q n k
          × (split_by p (bytes m q n) ≡ some (bytes m q k, bytes m (q + (k + 1)) (n - (k + 1)))))
split_by-bytes p m q zero = inl (refl, λ j lt. absurd (omega arith))
split_by-bytes p m q (suc n) = elim (Bool-cases (p (m q))) [
  | inl hit ↦
      let e : q + 0 ≡ q = omega arith in
      inr (
        0,
        record { within = omega arith; hit = rw e hit; misses = λ j lt. absurd (omega arith) },
        (let count : suc n - 1 ≡ n = omega arith in rw (hit, count) refl),
      )
  | inr miss ↦ elim (split_by-bytes p m (q + 1) n) [
    | inl (e, none_there) ↦ inl (rw (miss, e) refl, misses_from p m q n miss none_there)
    | inr (k, f, e) ↦
        let place : q + suc k ≡ q + 1 + k = omega arith in
        let rest : q + (suc k + 1) ≡ q + 1 + (k + 1) = omega arith in
        let count : suc n - (suc k + 1) ≡ n - (k + 1) = omega arith in
        inr (
          suc k,
          record {
            within = omega (arith, f.within);
            hit = rw place f.hit;
            misses = misses_from p m q k miss f.misses;
          },
          rw (miss, e, rest, count) refl,
        )
  ]
]

-- Two firsts are at the same place.
pub IsFirst-unique :
    (p : ℕ → Bool) (m : Mem) (q n n' k k' : ℕ) → IsFirst p m q n k → IsFirst p m q n' k' → k ≡ k'
IsFirst-unique p m q n n' k k' f g = elim (Bool-cases (ltb k k')) [
  | inl lt ↦ let no : p (m (q + k)) ≡ false = g.misses k (ground arith) in absurd (cc (f.hit))
  | inr ge ↦ elim (Bool-cases (ltb k' k)) [
    | inl gt ↦ let no : p (m (q + k')) ≡ false = f.misses k' (ground arith) in absurd (cc (g.hit))
    | inr le ↦ ground arith
  ]
]
