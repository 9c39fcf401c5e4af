-- ===== src/Chat/Server/Grown.antt =====
-- The first client of a new pool, in a safe state.
use chat_server.Base.{
  ℕ, ◌+◌, ◌≤◌, ◌≡◌, ◌≢◌, ◌⊎◌, inl, inr, subst, ap, true, List, [], ◌∷◌, ◌++◌, arith, length,
  length-append, has, has-append, Bool-cases, append-nil,
}
use chat_server.Pool.FreeList.{chunks}
use chat_server.Chat.State.{World, client_size, name_of, max_pools}
use chat_server.Chat.New.{clp_size}
use chat_server.Chat.New.Views.{chunks_of-append, connected-append}
use chat_server.Chat.New.Pools.{Mapped, fresh_view}
use chat_server.Chat.Close.Safe.{connected-has}
use chat_server.Chat.Frame.{IsSound, IsSafe}
use chat_server.Chat.Server.Fresh.{IsFree, IsNew, chunks_in, chunks_spaced}
use chat_server.Chat.Invariant.{View, chunks_of, connected, IsServer}

module _ (w w' : World) (vs : List View) (c buf : ℕ) (rest : List ℕ) (i : IsSafe w vs)
    (k : IsFree w vs buf) (e : (fresh_view buf).free ≡ c ∷ rest) (m : Mapped buf w w') where
  abbrev one_more : List View
  one_more = vs ++ record { used = c ∷ []; free = rest } ∷ []

  -- A chunk is an old one, or one of the mapping.
  old_or_new :
      (a : ℕ)
      → has a (chunks_of one_more) ≡ true
      → (has a (chunks_of vs) ≡ true) ⊎ (has a (chunks (buf + clp_size) client_size 1023) ≡ true)
  old_or_new a h =
      let split = chunks_of-append vs (record { used = c ∷ []; free = rest } ∷ []) in
      let all : has a (chunks_of vs ++ (c ∷ rest)) ≡ true =
        subst (λ xs. has a (chunks_of vs ++ (c ∷ xs)) ≡ true) (append-nil rest)
          (subst (λ xs. has a xs ≡ true) split h) in
      ground (arith, has-append a (chunks_of vs) (c ∷ rest), ap (has a) e)

  old-IsSound : (a : ℕ) → has a (chunks_of vs) ≡ true → IsSound w' a
  old-IsSound a h =
      let s = i.sound a h in
      let far = k.structs a h in
      let r = m.outside a (ground arith) in
      record {
        apart = rw m.same_stack s.apart;
        name = ground (arith, s.name, r, m.same_mem (name_of a + (w.clients a).name_used));
      }

  new-IsSound : (a : ℕ) → has a (chunks (buf + clp_size) client_size 1023) ≡ true → IsSound w' a
  new-IsSound a h =
      let p = chunks_in (buf + clp_size) client_size 1023 a h in
      record {
        apart = rw m.same_stack (omega (arith, p.0, p.1, k.stack));
        name = inl (m.nameless a (ground (arith, p.0, p.1)));
      }

  new_chunk : has c (chunks (buf + clp_size) client_size 1023) ≡ true
  new_chunk = rw e (ground arith)

  spaced_apart :
      (a b : ℕ)
      → has a (chunks_of vs) ≡ true
      → has b (chunks (buf + clp_size) client_size 1023) ≡ true
      → (a + client_size ≤ b) ⊎ (b + client_size ≤ a)
  spaced_apart a b h l =
      let p = chunks_in (buf + clp_size) client_size 1023 b l in
      omega (arith, p.0, p.1, k.structs a h)

  pub grown-IsNew : c ≢ 0 → length vs ≢ max_pools → IsServer w' one_more → IsNew w vs c w' one_more
  grown-IsNew ne room j = record {
    safe = record {
      server = j;
      few = omega (arith, i.few, length-append vs (record { used = c ∷ []; free = rest } ∷ []));
      sound = λ a h. elim (old_or_new a h) [
        | inl old ↦ old-IsSound a old
        | inr new ↦ new-IsSound a new
      ];
      spaced = λ a b h l differ. elim (old_or_new a h) [
        | inl old ↦ elim (old_or_new b l) [
          | inl old' ↦ i.spaced a b old old' differ
          | inr new' ↦ spaced_apart a b old new'
        ]
        | inr new ↦ elim (old_or_new b l) [
          | inl old' ↦ ground (arith, spaced_apart b a old' new)
          | inr new' ↦ chunks_spaced (buf + clp_size) client_size 1023 a b new new' differ
        ]
      ];
    };
    not_nil = ne;
    new = elim (Bool-cases (has c (connected vs))) [
      | inl twice ↦
          let p = chunks_in (buf + clp_size) client_size 1023 c new_chunk in
          absurd (omega (arith, p.0, p.1, k.structs c (connected-has c vs twice)))
      | inr never ↦ never
    ];
    members = λ a.
        rw
          (
            connected-append vs (record { used = c ∷ []; free = rest } ∷ []),
            has-append a (connected vs) (c ∷ []),
          )
          (ground arith);
    same_rest = λ a h. let far = k.structs a (connected-has a vs h) in m.outside a (ground arith);
    same_fd = λ a h. let far = k.structs a (connected-has a vs h) in m.same_fd a (ground arith);
  }
