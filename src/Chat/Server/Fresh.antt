-- ===== src/Chat/Server/Fresh.antt =====
-- The client that `session_new` answers, in a safe state.
use chat_server.Base.{
  ℕ, zero, suc, ◌+◌, ◌*◌, ◌≤◌, ◌≡◌, ◌≢◌, ◌⊎◌, inl, inr, refl, ap, true, false, List, ◌++◌, arith,
  ◌==◌, ◌||◌, length, has, Distinct, Bool-cases,
}
use chat_server.Base.Addresses.{has_left, has_right, Distinct-right, Distinct-Apart, append-not-has}
use chat_server.Pool.FreeList.{chunks}
use chat_server.Chat.State.{Client, World, client_size}
use chat_server.Chat.New.Take.{Takes, here, there, Linked, Takes-has}
use chat_server.Chat.New.Views.{Takes-not-has, Takes-connected}
use chat_server.Chat.New.Pools.{IsMapping, map_size}
use chat_server.Chat.Close.Views.{connected_is_chunk}
use chat_server.Chat.Frame.{msg_size, Confined, IsSafe, Confined-IsSafe}
use chat_server.Chat.Invariant.{View, SameRest, chunks_of, connected, IsServer}

-- What the kernel promises of a mapping: it overlaps no struct of a client and not the stack.
pub record IsFree (w : World) (vs : List View) (buf : ℕ) : Type 0 where
  pub mapping : IsMapping vs buf
  pub structs :
      (a : ℕ) → has a (chunks_of vs) ≡ true → (a + client_size ≤ buf) ⊎ (buf + map_size ≤ a)
  pub stack : (w.stack + msg_size ≤ buf) ⊎ (buf + map_size ≤ w.stack)

-- The new client is connected, nobody else has come or gone, and no other client's counts changed.
pub record IsNew (w : World) (vs : List View) (c : ℕ) (w' : World) (vs' : List View) : Type 0 where
  pub safe : IsSafe w' vs'
  pub not_nil : c ≢ 0
  pub new : has c (connected vs) ≡ false
  pub members : (a : ℕ) → has a (connected vs') ≡ ((a == c) || has a (connected vs))
  pub same_rest : (a : ℕ) → has a (connected vs) ≡ true → SameRest w.clients w'.clients a
  pub same_fd : (a : ℕ) → has a (connected vs) ≡ true → (w'.clients a).fd ≡ (w.clients a).fd

-- A chunk behind a pool's clients is none of them.
behind_used :
    (us rest : List ℕ) (c : ℕ) → Distinct (us ++ rest) → has c rest ≡ true → has c us ≡ false
behind_used us rest c d h = elim (Bool-cases (has c us)) [
  | inl twice ↦ let no = Distinct-Apart us rest d c twice in absurd (cc)
  | inr once ↦ once
]

Takes-new :
    {vs vs' : List View} {c : ℕ}
    → Takes vs c vs'
    → Distinct (chunks_of vs)
    → has c (connected vs) ≡ false
Takes-new (here {v} {vs} x xs e) d =
    let rest = Distinct-right v.used (v.free ++ chunks_of vs) d in
    let free : has x v.free ≡ true = ground (arith, ap (has x) e) in
    append-not-has x v.used (connected vs)
      (behind_used v.used (v.free ++ chunks_of vs) x d (has_left x v.free (chunks_of vs) free))
      (connected_is_chunk x vs (Distinct-Apart v.free (chunks_of vs) rest x free))
Takes-new (there {v} {vs} {vs'} {c} e t) d =
    let rest = Distinct-right v.used (v.free ++ chunks_of vs) d in
    append-not-has c v.used (connected vs)
      (behind_used v.used (v.free ++ chunks_of vs) c d
        (has_right c v.free (chunks_of vs) (Takes-has t)))
      (Takes-new t (Distinct-right v.free (chunks_of vs) rest))

Takes-length : {vs vs' : List View} {c : ℕ} → Takes vs c vs' → length vs' ≡ length vs
Takes-length (here x xs e) = refl
Takes-length (there e t) = ap suc (Takes-length t)

pub reused-IsNew :
    (w w' : World) (vs vs' : List View) (c : ℕ)
    → IsSafe w vs
    → c ≢ 0
    → Takes vs c vs'
    → IsServer w' vs'
    → Linked c w.clients w'.clients
    → (w'.mem ≡ w.mem) × (w'.stack ≡ w.stack)
    → IsNew w vs c w' vs'
reused-IsNew w w' vs vs' c i ne t j l (same_mem, same_stack) =
    let chunk = Takes-has t in
    let f : Confined c w w' = record {
      same_stack = same_stack;
      same_rest = λ a h. l.same_rest a;
      same_fd = λ a h. ap (λ (x : Client). x.fd) (l.elsewhere a h);
      same_mem = λ x h k. ap (λ (m : ℕ → ℕ). m x) same_mem;
    } in
    let s = i.sound c chunk in
    let part = λ (a : ℕ) (h : has a (chunks_of vs') ≡ true). still a h in
    record {
      safe =
          Confined-IsSafe c w w' f vs vs' i chunk j (omega (arith, Takes-length t)) part (record {
            apart = rw same_stack s.apart;
            name = ground (
              arith,
              s.name,
              l.same_rest c,
              ap (λ (m : ℕ → ℕ). m (c + 520 + (w.clients c).name_used)) same_mem,
            );
          });
      not_nil = ne;
      new = Takes-new t i.server.distinct;
      members = λ a. Takes-connected a c vs vs' t;
      same_rest = λ a h. l.same_rest a;
      same_fd = λ a h.
          let ne : a ≢ c = λ e.
            let no : has c (connected vs) ≡ true = rw (← e) h in
            let new = Takes-new t i.server.distinct in absurd (cc) in
          ap (λ (x : Client). x.fd) (l.elsewhere a ne);
    }
  where
    still : (a : ℕ) → has a (chunks_of vs') ≡ true → has a (chunks_of vs) ≡ true
    still a h = elim (Bool-cases (has a (chunks_of vs))) [
      | inl old ↦ old
      | inr never ↦ let out = Takes-not-has a c vs vs' t never in absurd (cc)
    ]

-- Of the chunks of a pool: where they lie, and how far apart.
pub chunks_in :
    (buf size n a : ℕ) → has a (chunks buf size n) ≡ true → (buf ≤ a) × (a + size ≤ buf + n * size)
unfolding chunks
chunks_in buf size zero a h = absurd (cc)
chunks_in buf size (suc n) a h = ground (arith, chunks_in buf size n a)

pub chunks_spaced :
    (buf size n a b : ℕ)
    → has a (chunks buf size n) ≡ true
    → has b (chunks buf size n) ≡ true
    → a ≢ b
    → (a + size ≤ b) ⊎ (b + size ≤ a)
unfolding chunks
chunks_spaced buf size zero a b h k ne = absurd (cc)
chunks_spaced buf size (suc n) a b h k ne =
    ground (arith, chunks_spaced buf size n a b, chunks_in buf size n a, chunks_in buf size n b)
