-- ===== src/Chat/New/Session.antt =====
-- `session_new` as a whole.
use chat_server.Base.{
  ℕ, ◌+◌, ◌*◌, ◌≤◌, ◌<◌, ◌≡◌, ◌≢◌, ◌↔◌, inl, inr, refl, subst, ◌||◌, true, false, Option, some,
  none, List, [], ◌∷◌, ◌++◌, arith, ltb, ◌==◌, length, has, has-append, Distinct, Bool-cases,
  append-nil,
}
use chat_server.Base.Addresses.{append-Distinct}
use chat_server.Memory.{inside}
use chat_server.Pool.{pool_get}
use chat_server.Pool.FreeList.{
  chunks, chunks-suc, chunks-Distinct, has-chunks_above, has-chunks_below, pool_get-Free,
}
use chat_server.Chat.State.{
  Clients, ClientPool, World, nodes, Run, ok, stopped, exited, client_size, max_clients_in_pool,
  max_pools,
}
use chat_server.Chat.New.{
  clp_size, count_new, new_in_pools, new_in_last, session_new_clp, session_new,
}
use chat_server.Chat.New.Take.{AreFull, Takes, Linked, new_in_pools-Found}
use chat_server.Chat.New.Views.{
  Takes-Distinct, Takes-connected, connected-append, ArePools-append, ArePools-length,
  AreFull-connected, Takes-room, chunks_of-append,
}
use chat_server.Chat.New.Pools.{
  IsMapping, map_size, fresh_view, chunk_outside, Mapped, session_new_clp-Added,
}
use chat_server.Chat.Invariant.{View, links, IsPool, chunks_of, connected, IsServer}

-- What `session_new` answers on well formed pools.
pub data NewOutcome (mapping : Option ℕ) (w : World) (vs : List View) (r : Run (ℕ × World))
    : Type 0 where
  -- a free chunk of one of the pools
  reused :
      (c : ℕ) (w' : World) (vs' : List View)
      → r ≡ ok (c, w')
      → c ≢ 0
      → Takes vs c vs'
      → IsServer w' vs'
      → Linked c w.clients w'.clients
      → (w'.mem ≡ w.mem) × (w'.stack ≡ w.stack)
      → w'.out ≡ w.out
      → NewOutcome mapping w vs r
  -- the first chunk of a new pool
  grown :
      (c : ℕ) (w' : World) (rest : List ℕ) (buf : ℕ)
      → r ≡ ok (c, w')
      → c ≢ 0
      → AreFull vs
      → length vs ≢ max_pools
      → mapping ≡ some buf
      → (fresh_view buf).free ≡ c ∷ rest
      → IsServer w' (vs ++ record { used = c ∷ []; free = rest } ∷ [])
      → Mapped buf w w'
      → w'.out ≡ w.out
      → NewOutcome mapping w vs r
  -- nil, since all pools that there may be are full
  refused : r ≡ ok (0, w) → AreFull vs → length vs ≡ max_pools → NewOutcome mapping w vs r
  -- the process ends, since there is no memory for a new pool
  unmapped :
      r ≡ stopped (exited 1)
      → AreFull vs
      → length vs ≢ max_pools
      → mapping ≡ none
      → NewOutcome mapping w vs r

new_in_last-append :
    (cs : Clients) (ps : List ClientPool) (clp : ClientPool)
    → let got = pool_get nodes cs clp.p in
      new_in_last cs (ps ++ clp ∷ []) ≡ (got.0, ps ++ count_new clp got.1 got.0 ∷ [])
unfolding new_in_last
new_in_last-append cs [] clp = refl
new_in_last-append cs (p ∷ []) clp = refl
new_in_last-append cs (p ∷ q ∷ ps) clp = rw (new_in_last-append cs (q ∷ ps) clp)

-- The first chunk of a pool without clients.
first_client :
    (cs : Clients) (clp : ClientPool) (c : ℕ) (rest : List ℕ)
    → IsPool cs clp (record { used = []; free = c ∷ rest })
    → links cs c ≡ 0
    → let got = pool_get nodes cs clp.p in
      (got.0 ≡ c) × IsPool cs (count_new clp got.1 got.0) (record { used = c ∷ []; free = rest })
first_client cs clp c rest i last =
    let got = pool_get-Free nodes cs clp.p c rest i.free_chain in
    (
      got.0,
      record {
        used_chain = (got.0, i.free_chain.1, last);
        free_chain = got.1;
        used_count = omega (arith, i.used_count);
        free_count = omega (arith, i.free_count);
        whole = omega (arith, i.whole);
      },
    )

-- The chunks of the new pool are none of the old ones.
grown-Distinct :
    (vs : List View) (buf c : ℕ) (rest : List ℕ)
    → IsMapping vs buf
    → Distinct (chunks_of vs)
    → chunks (buf + clp_size) client_size max_clients_in_pool ≡ c ∷ rest
    → Distinct (chunks_of (vs ++ record { used = c ∷ []; free = rest } ∷ []))
grown-Distinct vs buf c rest k d e =
    rw (chunks_of-append vs (record { used = c ∷ []; free = rest } ∷ []), append-nil rest, ← e)
      (append-Distinct (chunks_of vs) (chunks (buf + clp_size) client_size 1023) d
        (chunks-Distinct (buf + clp_size) client_size 1023 (omega arith))
        λ a h.
          let out = chunk_outside vs buf a k h in
          elim (Bool-cases (ltb a (buf + clp_size))) [
            | inl below ↦ has-chunks_above (buf + clp_size) client_size 1023 a (ground arith)
            | inr above ↦
                has-chunks_below (buf + clp_size) client_size 1023 a (omega arith) (ground arith)
          ])

module _ (w : World) (vs : List View) (i : IsServer w vs) (full : AreFull vs) where
  grow :
      (buf c : ℕ) (rest : List ℕ)
      → IsMapping vs buf
      → (fresh_view buf).free ≡ c ∷ rest
      → inside buf map_size c ≡ true
      → (new_in_pools w.clients w.pools ≡ ok (0, w.clients, w.pools))
      → length vs ≢ max_pools
      → NewOutcome (some buf) w vs (session_new (some buf) w)
  unfolding session_new
  grow buf c rest k e in_map none_free room =
      let a = session_new_clp-Added w vs buf i.pools k in
      let cs = a.after.clients in
      let pool : IsPool cs a.pool (record { used = []; free = c ∷ rest }) =
        subst (λ fs. IsPool cs a.pool (record { used = []; free = fs })) e a.new_pool in
      let first = first_client cs a.pool c rest pool (a.no_links c in_map) in
      let got = pool_get nodes cs a.pool.p in
      let w' = record a.after { pools = w.pools ++ count_new a.pool got.1 got.0 ∷ [] } in
      let more : (length w.pools == max_pools) ≡ false =
        ground (arith, ArePools-length w.clients w.pools vs i.pools) in
      let last : new_in_last cs a.after.pools ≡ (got.0, w'.pools) =
        rw a.pools_is (new_in_last-append cs w.pools a.pool) in
      grown c w' rest buf (rw (none_free, more, a.returns, last, first.0)) pool.free_chain.1 full
        room refl e
        (record {
          pools =
              ArePools-append cs w.pools (count_new a.pool got.1 got.0 ∷ []) vs _ a.old_pools
                (first.1, tt);
          distinct = grown-Distinct vs buf c rest k i.distinct e;
        })
        (record {
          outside = a.only_mapping.outside;
          same_fd = a.only_mapping.same_fd;
          nameless = a.only_mapping.nameless;
          same_mem = a.only_mapping.same_mem;
          same_stack = a.only_mapping.same_stack;
        })
        a.out_is

when_full :
    (mapping : Option ℕ) (w : World) (vs : List View)
    → IsServer w vs
    → AreFull vs
    → new_in_pools w.clients w.pools ≡ ok (0, w.clients, w.pools)
    → ((buf : ℕ) → mapping ≡ some buf → IsMapping vs buf)
    → NewOutcome mapping w vs (session_new mapping w)
unfolding session_new session_new_clp
when_full none w vs i full none_free kernel =
    let count = ArePools-length w.clients w.pools vs i.pools in
    elim (Bool-cases (length w.pools == max_pools)) [
      | inl all ↦ refused (rw (none_free, all)) full (ground arith)
      | inr room ↦ unmapped (rw (none_free, room)) full (ground arith) refl
    ]
when_full (some buf) w vs i full none_free kernel =
    let count = ArePools-length w.clients w.pools vs i.pools in
    elim (Bool-cases (length w.pools == max_pools)) [
      | inl all ↦ refused (rw (none_free, all)) full (ground arith)
      | inr room ↦
          grow w vs i full buf (buf + clp_size + 1022 * client_size)
            (chunks (buf + clp_size) client_size 1022) (kernel buf refl)
            (chunks-suc (buf + clp_size) client_size 1022) (ground arith) none_free (ground arith)
    ]

-- On well formed pools, and with a mapping as the kernel promises it, `session_new` answers: a free
-- chunk of the first pool that has one; else, with 16 pools, nil; else the first chunk of a new
-- pool; or it ends the process, if there is no memory for that. The client is then connected, and
-- the pools are well formed.
pub session_new-NewOutcome :
    (mapping : Option ℕ) (w : World) (vs : List View)
    → IsServer w vs
    → ((buf : ℕ) → mapping ≡ some buf → IsMapping vs buf)
    → NewOutcome mapping w vs (session_new mapping w)
unfolding session_new
session_new-NewOutcome mapping w vs i kernel =
    elim (new_in_pools-Found w.clients w.pools vs i.pools i.distinct) [
      | inr f ↦
          let ne : (f.chunk == 0) ≡ false = ground (arith, f.is_chunk) in
          reused f.chunk (record w { clients = f.clients; pools = f.pools }) f.views
            (rw (f.returns, ne)) f.is_chunk f.takes
            (record {
              pools = f.well_formed;
              distinct = Takes-Distinct f.chunk vs f.views f.takes i.distinct;
            })
            f.linked (refl, refl) refl
      | inl (full, none_free) ↦ when_full mapping w vs i full none_free kernel
    ]

-- On well formed pools, of which there are at most 16, `session_new` turns a connection away, and
-- then changes nothing, exactly when 16 * 1023 clients are connected.
pub session_new_capacity :
    (mapping : Option ℕ) (w : World) (vs : List View)
    → IsServer w vs
    → length vs ≤ max_pools
    → ((buf : ℕ) → mapping ≡ some buf → IsMapping vs buf)
    → (session_new mapping w ≡ ok (0, w)) ↔ (length (connected vs) ≡ 16 * 1023)
session_new_capacity mapping w vs i few kernel =
    capacity (session_new-NewOutcome mapping w vs i kernel)
  where
    capacity :
        {r : Run (ℕ × World)}
        → NewOutcome mapping w vs r
        → (r ≡ ok (0, w)) ↔ (length (connected vs) ≡ 16 * 1023)
    capacity (reused c w' vs' e ne t k l z o) = (
      λ h. absurd (ne cc),
      λ h. absurd (omega (arith, Takes-room w.clients w.pools c vs vs' i.pools t)),
    )
    capacity (grown c w' rest buf e ne full room m f k z o) = (
      λ h. absurd (ne cc),
      λ h. absurd (room (omega (arith, AreFull-connected w.clients w.pools vs i.pools full))),
    )
    capacity (refused e full n) =
        (λ h. omega (arith, AreFull-connected w.clients w.pools vs i.pools full, n), λ h. e)
    capacity (unmapped e full n m) = (
      λ h. absurd cc,
      λ h. absurd (n (omega (arith, AreFull-connected w.clients w.pools vs i.pools full))),
    )

-- On well formed pools in which fewer than 16 * 1023 clients are connected, and where the kernel has
-- a mapping, `session_new` answers a client. Then the pools are well formed again, the client is
-- connected, and nobody else has come or gone.
pub session_new-connected :
    (buf : ℕ) (w : World) (vs : List View)
    → IsServer w vs
    → IsMapping vs buf
    → length (connected vs) < 16 * 1023
    → (c : ℕ) × (w' : World) × (vs' : List View) × (session_new (some buf) w ≡ ok (c, w'))
      × (c ≢ 0)
      × IsServer w' vs'
      × ((a : ℕ) → has a (connected vs') ≡ ((a == c) || has a (connected vs)))
session_new-connected buf w vs i k room = connects (
    session_new-NewOutcome (some buf) w vs i
      λ b e. let same : buf ≡ b = cc in subst (λ x. IsMapping vs x) same k)
  where
    connects :
        {r : Run (ℕ × World)}
        → NewOutcome (some buf) w vs r
        → (c : ℕ) × (w' : World) × (vs' : List View) × (r ≡ ok (c, w'))
          × (c ≢ 0)
          × IsServer w' vs'
          × ((a : ℕ) → has a (connected vs') ≡ ((a == c) || has a (connected vs)))
    connects (reused c w' vs' e ne t j l z o) =
        (c, w', vs', e, ne, j, λ a. Takes-connected a c vs vs' t)
    connects (grown c w' rest b e ne full more m f j z o) = (
      c,
      w',
      vs ++ record { used = c ∷ []; free = rest } ∷ [],
      e,
      ne,
      j,
      λ a.
          rw
            (
              connected-append vs (record { used = c ∷ []; free = rest } ∷ []),
              has-append a (connected vs) (c ∷ []),
            )
            (ground arith),
    )
    connects (refused e full n) =
        absurd (omega (arith, AreFull-connected w.clients w.pools vs i.pools full, n))
    connects (unmapped e full n m) = absurd cc
