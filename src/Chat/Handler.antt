-- ===== src/Chat/Handler.antt =====
-- What a handler of one client leaves of a running server.
use chat_server.Base.{
  ◌⊎◌, ℕ, ◌≤◌, ◌≡◌, ◌≢◌, inl, inr, refl, true, false, List, [], ◌∷◌, arith, ◌==◌, has, erase,
  has-erase_self, Bool-cases,
}
use chat_server.Chat.State.{World, Run, ok}
use chat_server.Chat.Close.Safe.{Leaves, connected-Distinct}
use chat_server.Chat.Watch.{Quiet, Watching, quiet, hung, Watching-after}
use chat_server.Chat.Frame.{Confined, Confined-trans, IsSafe, IsRunning}
use chat_server.Chat.Room.{room, leave, room_same, leave-room}
use chat_server.Chat.Invariant.{View, connected}

pub has-erase_other : (a c : ℕ) (xs : List ℕ) → a ≢ c → has a (erase c xs) ≡ has a xs
has-erase_other a c [] ne = refl
has-erase_other a c (x ∷ xs) ne = ground (arith, has-erase_other a c xs ne)

-- A client's counts are within its arrays.
abbrev pub IsCounted : World → ℕ → Type 0
IsCounted w c = ((w.clients c).buf_used ≤ 512) × ((w.clients c).name_used ≤ 32)

-- The handler of c ends in a safe state, in which all others that were connected still are, and
-- nobody has come; it has touched no other client's name, buffer and descriptor, and what is
-- watched has changed only where the client has gone.
pub record Handles (c : ℕ) (w : World) (vs : List View) (r : Run World) : Type 0 where
  pub after : World
  pub views : List View
  pub returns : r ≡ ok after
  pub safe : IsSafe after views
  pub confined : Confined c w after
  pub others : (a : ℕ) → a ≢ c → has a (connected views) ≡ has a (connected vs)
  pub watching : Watching c w vs after views
  pub own : has c (connected views) ≡ true → IsCounted after c

pub Leaves-Handles :
    (c : ℕ) (w : World) (vs : List View) (r : Run World)
    → IsSafe w vs
    → Leaves c w vs r
    → Handles c w vs r
Leaves-Handles c w vs r i l = record {
  after = l.after;
  views = l.views;
  returns = l.returns;
  safe = l.safe;
  confined = l.confined;
  others = λ a ne. rw l.still (has-erase_other a c (connected vs) ne);
  watching = hung l.hung;
  own = λ h.
      let gone : has c (connected l.views) ≡ false =
        rw l.still (has-erase_self c (connected vs) (connected-Distinct vs i.server.distinct)) in
      absurd (cc);
}

-- A handler may first change the client's own struct.
pub Handles-after :
    (c : ℕ) (w w1 : World) (vs : List View) (r : Run World)
    → Confined c w w1
    → Quiet w w1
    → Handles c w1 vs r
    → Handles c w vs r
Handles-after c w w1 vs r f q h = record {
  after = h.after;
  views = h.views;
  returns = h.returns;
  safe = h.safe;
  confined = Confined-trans c w w1 h.after f h.confined;
  others = h.others;
  watching = Watching-after c w w1 h.after vs h.views q h.watching;
  own = h.own;
}

-- A running server goes on running.
pub Handles-IsRunning :
    (c : ℕ) (w : World) (vs : List View) (r : Run World)
    → IsRunning w vs
    → (h : Handles c w vs r) → IsRunning h.after h.views
Handles-IsRunning c w vs r i h = record {
  safe = h.safe;
  counts = λ a there. elim (Bool-cases (a == c)) [
    | inl same ↦ let e : a ≡ c = ground arith in rw e (h.own (ground (arith, there)))
    | inr other ↦
        let ne : a ≢ c = ground arith in
        let before : has a (connected vs) ≡ true = ground (arith, h.others a ne, there) in
        ground (arith, h.confined.same_rest a ne, i.counts a before)
  ];
}

-- The client stays, in a safe state.
pub stays-Handles :
    (c : ℕ) (w w1 : World) (vs : List View)
    → IsSafe w1 vs
    → Confined c w w1
    → Quiet w w1
    → IsCounted w1 c
    → Handles c w vs (ok w1)
stays-Handles c w w1 vs i f q counted = record {
  after = w1;
  views = vs;
  returns = refl;
  safe = i;
  confined = f;
  others = λ a ne. refl;
  watching = quiet q (λ a. refl);
  own = λ h. counted;
}

-- The client is still in the room, or has left it.
pub Handles-room :
    (c : ℕ) (w : World) (vs : List View) (r : Run World)
    → has c (connected vs) ≡ true
    → (h : Handles c w vs r) → (room vs ≡ room h.views) ⊎ (leave c (room vs) ≡ room h.views)
Handles-room c w vs r there h = elim (Bool-cases (has c (connected h.views))) [
  | inl stays ↦ inl (
      room_same vs h.views (λ a. elim (Bool-cases (a == c)) [
        | inl same ↦ let e : a ≡ c = ground arith in rw (e, stays, there) refl
        | inr other ↦ h.others a (ground arith)
      ]))
  | inr left ↦ inr (
      leave-room c vs h.views (λ a. elim (Bool-cases (a == c)) [
        | inl same ↦ let e : a ≡ c = ground arith in rw (same, e) left
        | inr other ↦ rw other (h.others a (ground arith))
      ]))
]
