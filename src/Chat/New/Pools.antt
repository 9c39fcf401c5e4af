-- ===== src/Chat/New/Pools.antt =====
-- `session_new_clp`: a new pool in a fresh mapping.
use native.Mathlib.Nat.{add-zero}
use chat_server.Base.{
  ℕ, ◌+◌, ◌*◌, ◌/◌, ◌%◌, ◌^◌, ◌<◌, ◌≡◌, ◌≢◌, refl, ap, ◌∙◌, true, false, some, List, [], ◌∷◌, ◌++◌,
  arith, ◌==◌, has, Bool-cases, inl, inr,
}
use chat_server.Memory.{inside}
use chat_server.Builtin.Slices.{u64}
use chat_server.Pool.{Pool}
use chat_server.Pool.FreeList.{chunks, length-chunks, IsFresh, pool_init-IsFresh}
use chat_server.Arena.{Arena, arena_create, arena_alloc, page_aligned}
use chat_server.Arena.Laws.{arena_alloc_aligned}
use chat_server.Chat.State.{
  Client, Clients, ClientPool, World, nodes, load_link, store_link, link_law, Run, ok, client_size,
  max_clients_in_pool,
}
use chat_server.Chat.New.{clp_memory, clp_size, pool_size, map_zero, session_new_clp}
use chat_server.Chat.Invariant.{
  SameRest, View, links, IsPool, ArePools, ArePools-frame, chunks_of, SameLinks,
}

-- The bytes that `arena_create` maps for one pool: 142 pages.
abbrev pub map_size : ℕ
map_size = 581632

-- What the kernel promises of a mapping: it begins on a page, not at nil, ends within the address
-- space, and overlaps no chunk that is in use.
pub record IsMapping (vs : List View) (buf : ℕ) : Type 0 where
  pub on_page : buf % 4096 ≡ 0
  pub ne_nil : buf ≢ 0
  pub ends : buf + map_size < u64
  pub disjoint : (a : ℕ) → inside buf map_size a ≡ true → has a (chunks_of vs) ≡ false

-- The chunks of a new pool in the order in which they will be given out.
abbrev pub fresh_view : ℕ → View
fresh_view buf = record {
  used = [];
  free = chunks (buf + clp_size) client_size max_clients_in_pool;
}

-- The arena of one pool with so many bytes given out.
abbrev pool_arena : ℕ → ℕ → ℕ → Arena
pool_arena buf prev curr = record {
  buf = buf;
  buf_len = map_size;
  prev_off = prev;
  curr_off = curr;
}

first_alloc :
    (buf : ℕ)
    → buf % 4096 ≡ 0
    → arena_alloc (pool_arena buf 0 0) clp_size ≡ some (pool_arena buf 0 48, buf)
first_alloc buf page =
    arena_alloc_aligned (pool_arena buf 0 0) clp_size (omega arith) (omega arith)
    ∙ ap (λ (p : ℕ). some (pool_arena buf 0 48, p)) (add-zero buf)

second_alloc :
    (buf : ℕ)
    → buf % 4096 ≡ 0
    → arena_alloc (pool_arena buf 0 48) pool_size
      ≡ some (pool_arena buf 48 (48 + pool_size), buf + clp_size)
second_alloc buf page =
    arena_alloc_aligned (pool_arena buf 0 48) pool_size (omega arith) (omega arith)

-- The struct stands at the start of the mapping, and the chunks behind it.
clp_memory-ok :
    (buf : ℕ)
    → buf % 4096 ≡ 0
    → buf ≢ 0
    → clp_memory (arena_create buf (pool_size + clp_size)) ≡ ok (buf, buf + clp_size)
unfolding clp_memory arena_create
clp_memory-ok buf page ne = rw (first_alloc buf page, second_alloc buf page) (ground arith)

-- Outside of the mapping at buf nothing has changed but links and descriptors, and no struct in it
-- has a name.
pub record Mapped (buf : ℕ) (w w' : World) : Type 0 where
  pub outside : (a : ℕ) → inside buf map_size a ≡ false → SameRest w.clients w'.clients a
  pub same_fd : (a : ℕ) → inside buf map_size a ≡ false → (w'.clients a).fd ≡ (w.clients a).fd
  pub nameless : (a : ℕ) → inside buf map_size a ≡ true → (w'.clients a).name_ok ≡ 0
  pub same_mem : (x : ℕ) → inside buf map_size x ≡ false → w'.mem x ≡ w.mem x
  pub same_stack : w'.stack ≡ w.stack

-- A state to which a pool in the mapping at buf has been added.
pub record Added (w : World) (vs : List View) (buf : ℕ) (r : Run World) : Type 0 where
  pub after : World
  pub pool : ClientPool
  pub returns : r ≡ ok after
  pub pools_is : after.pools ≡ w.pools ++ pool ∷ []
  pub old_pools : ArePools after.clients w.pools vs
  pub new_pool : IsPool after.clients pool (fresh_view buf)
  pub no_links : (a : ℕ) → inside buf map_size a ≡ true → links after.clients a ≡ 0
  pub out_is : after.out ≡ w.out
  pub base_is : pool.base ≡ buf
  pub only_mapping : Mapped buf w after

links-store_link : (cs : Clients) (p q a : ℕ) → links (store_link cs p q) a ≡ links cs a
links-store_link cs p q a = ground arith

chunk_inside :
    (buf j a : ℕ)
    → j < 1023
    → inside buf map_size a ≡ false
    → (a == buf + clp_size + j * client_size) ≡ false
chunk_inside buf j a lt out = ground arith

pub chunk_outside :
    (vs : List View) (buf a : ℕ)
    → IsMapping vs buf
    → has a (chunks_of vs) ≡ true
    → inside buf map_size a ≡ false
chunk_outside vs buf a k h = elim (Bool-cases (inside buf map_size a)) [
  | inl in_map ↦ absurd (cc (k.disjoint a in_map))
  | inr out ↦ out
]

module _ (w : World) (vs : List View) (buf : ℕ) (i : ArePools w.clients w.pools vs)
    (k : IsMapping vs buf) where
  abbrev zeroed : Clients
  zeroed = (map_zero buf map_size w).clients

  module _ (cs : Clients) (p : Pool)
      (f : IsFresh nodes zeroed (buf + clp_size) pool_size client_size cs p) where
    keeps_links : (a : ℕ) → links cs a ≡ links zeroed a
    keeps_links a =
        f.keeps (λ ds. links ds a)
          (λ n j q lt. links-store_link n (buf + clp_size + j * client_size) q a)

    old_links : (a : ℕ) → has a (chunks_of vs) ≡ true → SameLinks w.clients cs a
    old_links a h =
        let out : inside buf map_size a ≡ false = chunk_outside vs buf a k h in
        let same : zeroed a ≡ w.clients a = rw out in
        (
          keeps_links a ∙ ap (λ (x : Client). x.next) same,
          f.keeps (λ ds. load_link ds a)
                (λ n j q lt.
                  link_law n (buf + clp_size + j * client_size) q a
                  ∙ rw (chunk_inside buf j a lt out))
              ∙ ap (λ (x : Client). x.fd + 2 ^ 32 * x.buf_used) same,
        )

    new_IsPool :
        IsPool cs
          (record {
            base = buf;
            p = p;
            free_ch = p.buf_len / p.chunk_size;
            used_ch = 0;
            client = 0;
          })
          (fresh_view buf)
    new_IsPool = record {
      used_chain = refl;
      free_chain = f.free;
      used_count = refl;
      free_count = rw (f.same_len, f.same_size, length-chunks (buf + clp_size) client_size 1023);
      whole = omega (arith, length-chunks (buf + clp_size) client_size 1023);
    }

  -- On well formed pools and a mapping as the kernel promises it `session_new_clp` adds a pool in
  -- which every chunk is free, and leaves the other pools as they are.
  pub session_new_clp-Added : Added w vs buf (session_new_clp (some buf) w)
  unfolding session_new_clp page_aligned
  session_new_clp-Added =
      let (cs, p, e, f) =
        pool_init-IsFresh nodes zeroed (buf + clp_size) pool_size client_size (omega arith)
          (omega (arith, k.on_page)) (omega arith) (omega arith) (omega arith) (omega arith) in
      let pool : ClientPool = record {
        base = buf;
        p = p;
        free_ch = p.buf_len / p.chunk_size;
        used_ch = 0;
        client = 0;
      } in
      record {
        after = record w {
          clients = cs;
          mem = (map_zero buf map_size w).mem;
          pools = w.pools ++ pool ∷ [];
        };
        pool = pool;
        returns = rw (clp_memory-ok buf k.on_page k.ne_nil, e);
        pools_is = refl;
        old_pools = ArePools-frame w.clients cs w.pools vs i (old_links cs p f);
        new_pool = new_IsPool cs p f;
        no_links = λ a h. keeps_links cs p f a ∙ ground arith;
        out_is = refl;
        base_is = refl;
        only_mapping = record {
          outside = λ a out. (
            f.keeps (λ ds. (ds a).name_ok) (λ n j q lt. ground arith) ∙ rw out refl,
            f.keeps (λ ds. (ds a).name_used) (λ n j q lt. ground arith) ∙ rw out refl,
            f.keeps (λ ds. (ds a).buf_used) (λ n j q lt. rw (chunk_inside buf j a lt out) refl)
                ∙ rw out refl,
          );
          same_fd = λ a out.
              f.keeps (λ ds. (ds a).fd) (λ n j q lt. rw (chunk_inside buf j a lt out) refl)
              ∙ rw out refl;
          nameless = λ a in_map.
              f.keeps (λ ds. (ds a).name_ok) (λ n j q lt. ground arith) ∙ rw in_map refl;
          same_mem = λ x out. rw out refl;
          same_stack = refl;
        };
      }
