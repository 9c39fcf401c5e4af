-- ===== src/Chat/Room.antt =====
-- The chat as its clients see it: who is in it. The pools, their order and that of the clients in
-- them are forgotten.
use mathlib.Core.Bool.{Bool-set}
use mathlib.Core.Quot
use mathlib.Core.Quot.{Quot, Quot-set}
use chat_server.Base.{
  ℕ, ◌≡◌, refl, sym, Bool, not, ◌&&◌, ◌||◌, List, [], ◌∷◌, arith, ◌==◌, if◌then◌else◌, has,
}
use chat_server.Chat.Invariant.{View, connected}

abbrev SameMembers : List ℕ → List ℕ → Type 0
SameMembers xs ys = (a : ℕ) → has a xs ≡ has a ys

abbrev pub Room : Type 0
Room = Quot SameMembers

abbrev pub room : List View → Room
room vs = Quot.mk (connected vs)

abbrev remove : ℕ → List ℕ → List ℕ
remove c [] = []
remove c (x ∷ xs) = if c == x then remove c xs else x ∷ remove c xs

has-remove : (a c : ℕ) (xs : List ℕ) → has a (remove c xs) ≡ (not (a == c) && has a xs)
has-remove a c [] = ground arith
has-remove a c (x ∷ xs) = ground (arith, has-remove a c xs)

pub present : ℕ → Room → Bool
present a = Quot.lift Bool-set (has a) (λ xs ys h. h a)

pub enter : ℕ → Room → Room
enter c =
    Quot.lift Quot-set (λ xs. Quot.mk (c ∷ xs)) (λ xs ys h. Quot.sound (λ a. ground (arith, h a)))

pub leave : ℕ → Room → Room
leave c =
    Quot.lift Quot-set (λ xs. Quot.mk (remove c xs))
      (λ xs ys h. Quot.sound (λ a. ground (arith, h a, has-remove a c xs, has-remove a c ys)))

-- The same members are the same room.
pub room_same :
    (vs vs' : List View)
    → ((a : ℕ) → has a (connected vs') ≡ has a (connected vs))
    → room vs ≡ room vs'
room_same vs vs' h = Quot.sound (λ a. sym (h a))

pub enter-room :
    (c : ℕ) (vs vs' : List View)
    → ((a : ℕ) → has a (connected vs') ≡ ((a == c) || has a (connected vs)))
    → enter c (room vs) ≡ room vs'
unfolding enter
enter-room c vs vs' h = Quot.sound (λ a. ground (arith, h a))

pub leave-room :
    (c : ℕ) (vs vs' : List View)
    → ((a : ℕ) → has a (connected vs') ≡ (not (a == c) && has a (connected vs)))
    → leave c (room vs) ≡ room vs'
unfolding leave
leave-room c vs vs' h = Quot.sound (λ a. ground (arith, h a, has-remove a c (connected vs)))

pub present-room : (c : ℕ) (vs : List View) → present c (room vs) ≡ has c (connected vs)
unfolding present
present-room c vs = refl
