-- ===== src/Chat/Frame.antt =====
-- What the handlers of src/chat_server.c keep of all clients, over the pools that Invariant
-- describes: where the structs lie, and that a name is within its array and ends in a zero byte.
use chat_server.Base.{
  ℕ, ◌+◌, ◌≤◌, ◌≡◌, ◌≢◌, ◌⊎◌, inl, inr, refl, ◌∙◌, true, false, List, arith, ◌==◌, length, has,
  Bool-cases,
}
use chat_server.Memory.{inside}
use chat_server.Chat.State.{World, client_size, name_of, max_pools}
use chat_server.Chat.Invariant.{View, SameRest, chunks_of, connected, IsServer}

-- The size of the largest array `msg` of a handler.
abbrev pub msg_size : ℕ
msg_size = 561

-- Outside of the handlers' array and of the struct of c nothing has changed but links.
pub record Confined (c : ℕ) (w w' : World) : Type 0 where
  pub same_stack : w'.stack ≡ w.stack
  pub same_rest : (a : ℕ) → a ≢ c → SameRest w.clients w'.clients a
  pub same_fd : (a : ℕ) → a ≢ c → (w'.clients a).fd ≡ (w.clients a).fd
  pub same_mem :
      (x : ℕ)
      → inside w.stack msg_size x ≡ false
      → inside c client_size x ≡ false
      → w'.mem x ≡ w.mem x

pub Confined-refl : (c : ℕ) (w : World) → Confined c w w
Confined-refl c w = record {
  same_stack = refl;
  same_rest = λ a ne. (refl, refl, refl);
  same_fd = λ a ne. refl;
  same_mem = λ x h k. refl;
}

pub Confined-trans :
    (c : ℕ) (w w' w'' : World) → Confined c w w' → Confined c w' w'' → Confined c w w''
Confined-trans c w w' w'' p q = record {
  same_stack = q.same_stack ∙ p.same_stack;
  same_rest = λ a ne. ground (arith, p.same_rest a ne, q.same_rest a ne);
  same_fd = λ a ne. q.same_fd a ne ∙ p.same_fd a ne;
  same_mem = λ x h k. q.same_mem x (rw p.same_stack h) k ∙ p.same_mem x h k;
}

-- A struct apart from the handlers' array, without a name or with one of at most 31 bytes, which a
-- zero byte ends.
pub record IsSound (w : World) (a : ℕ) : Type 0 where
  pub apart : (a + client_size ≤ w.stack) ⊎ (w.stack + msg_size ≤ a)
  pub name :
      ((w.clients a).name_ok ≡ 0)
      ⊎ (((w.clients a).name_ok ≡ 1)
          × ((w.clients a).name_used ≤ 31)
          × (w.mem (name_of a + (w.clients a).name_used) ≡ 0))

-- Well formed pools, at most 16, of structs that are sound and do not overlap.
pub record IsSafe (w : World) (vs : List View) : Type 0 where
  pub server : IsServer w vs
  pub few : length vs ≤ max_pools
  pub sound : (a : ℕ) → has a (chunks_of vs) ≡ true → IsSound w a
  pub spaced :
      (a b : ℕ)
      → has a (chunks_of vs) ≡ true
      → has b (chunks_of vs) ≡ true
      → a ≢ b
      → (a + client_size ≤ b) ⊎ (b + client_size ≤ a)

-- Safe, with the counts of every connected client within its arrays.
pub record IsRunning (w : World) (vs : List View) : Type 0 where
  pub safe : IsSafe w vs
  pub counts :
      (a : ℕ)
      → has a (connected vs) ≡ true
      → ((w.clients a).buf_used ≤ 512) × ((w.clients a).name_used ≤ 32)

module _ (c : ℕ) (w w' : World) (f : Confined c w w') where
  -- Another client stays sound.
  pub Confined-IsSound :
      (a : ℕ) → a ≢ c → (a + client_size ≤ c) ⊎ (c + client_size ≤ a) → IsSound w a → IsSound w' a
  Confined-IsSound a ne space s =
      let r = f.same_rest a ne in
      let m = f.same_mem (name_of a + (w.clients a).name_used) in
      record {
        apart = rw f.same_stack s.apart;
        name = ground (arith, s.name, s.apart, r, m, space);
      }

  -- A handler that is confined to the client c, and leaves it sound in well formed pools of the
  -- chunks that there were, leaves a safe state.
  pub Confined-IsSafe :
      (vs vs' : List View)
      → IsSafe w vs
      → has c (chunks_of vs) ≡ true
      → IsServer w' vs'
      → length vs' ≤ length vs
      → ((a : ℕ) → has a (chunks_of vs') ≡ true → has a (chunks_of vs) ≡ true)
      → IsSound w' c
      → IsSafe w' vs'
  Confined-IsSafe vs vs' i there j shorter part own = record {
    server = j;
    few = omega (arith, i.few);
    sound = λ a h. elim (Bool-cases (a == c)) [
      | inl same ↦ let e : a ≡ c = ground arith in rw e own
      | inr other ↦
          let ne : a ≢ c = ground arith in
          Confined-IsSound a ne (i.spaced a c (part a h) there ne) (i.sound a (part a h))
    ];
    spaced = λ a b h k. i.spaced a b (part a h) (part b k);
  }
