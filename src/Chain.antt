-- ===== src/Chain.antt =====
-- Linked lists in memory: the nodes that are reached from a pointer through a `next` field.
use chat_server.Base.{ℕ, ◌≡◌, ◌≢◌, refl, List, [], ◌∷◌, arith, true, has}

-- From p the field `next` leads through the nodes xs, in order, to nil.
abbrev pub Chain : (ℕ → ℕ) → ℕ → List ℕ → Type 0
Chain next p [] = p ≡ 0
Chain next p (x ∷ xs) = (p ≡ x) × (x ≢ 0) × Chain next (next x) xs

-- A chain survives any change that leaves its own nodes alone.
pub Chain-frame :
    (f g : ℕ → ℕ) (p : ℕ) (xs : List ℕ)
    → Chain f p xs
    → ((a : ℕ) → has a xs ≡ true → g a ≡ f a)
    → Chain g p xs
Chain-frame f g p [] c same = c
Chain-frame f g p (x ∷ xs) c same = (
  c.0,
  c.1,
  rw (same x (ground arith)) (Chain-frame f g (f x) xs c.2 (λ a h. same a (ground (arith, h)))),
)

pub nil-Chain : (f : ℕ → ℕ) (xs : List ℕ) → Chain f 0 xs → xs ≡ []
nil-Chain f [] c = refl
nil-Chain f (x ∷ xs) c = absurd (c.1 (omega arith))

-- The pointer determines the nodes.
pub Chain-unique : (f : ℕ → ℕ) (p : ℕ) (xs ys : List ℕ) → Chain f p xs → Chain f p ys → xs ≡ ys
Chain-unique f p [] [] c d = refl
Chain-unique f p [] (y ∷ ys) c d = absurd (d.1 (omega arith))
Chain-unique f p (x ∷ xs) [] c d = absurd (c.1 (omega arith))
Chain-unique f p (x ∷ xs) (y ∷ ys) c d =
    let e : x ≡ y = omega arith in ground (arith, Chain-unique f (f x) xs ys c.2 (rw e d.2))

pub Chain-ne-nil : (f : ℕ → ℕ) (p a : ℕ) (xs : List ℕ) → Chain f p xs → has a xs ≡ true → a ≢ 0
Chain-ne-nil f p a [] c h = absurd (cc)
Chain-ne-nil f p a (x ∷ xs) c h = ground (arith, c.1, Chain-ne-nil f (f x) a xs c.2)
