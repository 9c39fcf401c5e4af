-- ===== src/Base/Addresses.antt =====
-- Lists of addresses in which none stands twice.
use chat_server.Base.{
  ℕ, ◌≡◌, refl, length, true, false, List, [], ◌∷◌, ◌++◌, arith, has, has-append, Distinct, erase,
}

-- An address of the one list is not in the other.
abbrev pub Apart : List ℕ → List ℕ → Type 0
Apart xs ys = (a : ℕ) → has a xs ≡ true → has a ys ≡ false

pub Distinct-left : (xs ys : List ℕ) → Distinct (xs ++ ys) → Distinct xs
Distinct-left [] ys d = tt
Distinct-left (x ∷ xs) ys d = ground (arith, has-append x xs ys, Distinct-left xs ys d.1)

pub Distinct-right : (xs ys : List ℕ) → Distinct (xs ++ ys) → Distinct ys
Distinct-right [] ys d = d
Distinct-right (x ∷ xs) ys d = Distinct-right xs ys d.1

pub Distinct-Apart : (xs ys : List ℕ) → Distinct (xs ++ ys) → Apart xs ys
Distinct-Apart [] ys d a h = absurd (cc)
Distinct-Apart (x ∷ xs) ys d a h =
    ground (arith, d.0, has-append x xs ys, Distinct-Apart xs ys d.1 a)

pub append-Distinct :
    (xs ys : List ℕ) → Distinct xs → Distinct ys → Apart xs ys → Distinct (xs ++ ys)
append-Distinct [] ys d e apart = e
append-Distinct (x ∷ xs) ys d e apart = (
  ground (arith, has-append x xs ys, d.0, apart x),
  append-Distinct xs ys d.1 e (λ a h. apart a (ground arith)),
)

-- Of what an append holds and does not hold.
pub not-has-append :
    (a : ℕ) (xs ys : List ℕ) → has a (xs ++ ys) ≡ false → (has a xs ≡ false) × (has a ys ≡ false)
not-has-append a xs ys h = ground (arith, has-append a xs ys)

pub append-not-has :
    (a : ℕ) (xs ys : List ℕ) → has a xs ≡ false → has a ys ≡ false → has a (xs ++ ys) ≡ false
append-not-has a xs ys h k = ground (arith, has-append a xs ys)

pub has_right : (a : ℕ) (xs ys : List ℕ) → has a ys ≡ true → has a (xs ++ ys) ≡ true
has_right a xs ys h = ground (arith, has-append a xs ys)

pub has_left : (a : ℕ) (xs ys : List ℕ) → has a xs ≡ true → has a (xs ++ ys) ≡ true
has_left a xs ys h = ground (arith, has-append a xs ys)

-- What is still there after an erasure was there before.
pub has_of_erase : (a c : ℕ) (xs : List ℕ) → has a (erase c xs) ≡ true → has a xs ≡ true
has_of_erase a c [] h = h
has_of_erase a c (x ∷ xs) h = ground (arith, has_of_erase a c xs)

-- The back of a list without repetitions may be replaced by a part of it.
pub Distinct-back :
    (xs ys zs : List ℕ)
    → Distinct (xs ++ ys)
    → Distinct zs
    → ((a : ℕ) → has a ys ≡ false → has a zs ≡ false)
    → Distinct (xs ++ zs)
Distinct-back xs ys zs d e part =
    append-Distinct xs zs (Distinct-left xs ys d) e (λ a h. part a (Distinct-Apart xs ys d a h))

pub erase-append_left :
    (c : ℕ) (xs ys : List ℕ) → has c xs ≡ true → erase c (xs ++ ys) ≡ erase c xs ++ ys
erase-append_left c [] ys h = absurd (cc)
erase-append_left c (x ∷ xs) ys h = ground (arith, erase-append_left c xs ys)

pub erase-append_right :
    (c : ℕ) (xs ys : List ℕ) → has c xs ≡ false → erase c (xs ++ ys) ≡ xs ++ erase c ys
erase-append_right c [] ys h = refl
erase-append_right c (x ∷ xs) ys h = ground (arith, erase-append_right c xs ys)

pub erase_single : (c : ℕ) (xs : List ℕ) → has c xs ≡ true → length xs ≡ 1 → erase c xs ≡ []
erase_single c [] h e = absurd (cc)
erase_single c (x ∷ []) h e = ground arith
erase_single c (x ∷ y ∷ xs) h e = absurd (omega arith)

pub erase_absent : (c : ℕ) (xs : List ℕ) → has c xs ≡ false → erase c xs ≡ xs
erase_absent c [] h = refl
erase_absent c (x ∷ xs) h = ground (arith, erase_absent c xs)
