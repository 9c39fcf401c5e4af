-- ===== src/Chat/New.antt =====
-- `session_new_clp` and `session_new` of src/chat_server.c.
pub mod Take
pub mod Pools
pub mod Views
pub mod Session
use chat_server.Base.{
  ℕ, ◌+◌, ◌-◌, ◌*◌, ◌/◌, Option, none, some, List, [], ◌∷◌, ◌++◌, ltb, ◌==◌, if◌then◌else◌, length,
  true, false,
}
use chat_server.Memory.{Mem, inside}
use chat_server.Pool.{Pool, pool_init, pool_get}
use chat_server.Arena.{Arena, page_aligned, arena_create, arena_alloc, default_alignment}
use chat_server.Chat.State.{
  Client, Clients, update, nodes, ClientPool, World, Run, ok, stopped, fault, exited, ◌>>=◌,
  or_fault, emit, client_size, max_clients_in_pool, max_pools,
}

-- `sizeof(client_pool)`
abbrev pub clp_size : ℕ
clp_size = 48

abbrev pub pool_size : ℕ
pool_size = client_size * max_clients_in_pool

-- A private anonymous mapping is filled with zero bytes.
abbrev pub zero_client : Client
zero_client = record { fd = 0; buf_used = 0; name_used = 0; name_ok = 0; next = 0 }

abbrev pub map_zero : ℕ → ℕ → World → World
map_zero buf len w = record w {
  clients = λ a. if inside buf len a then zero_client else w.clients a;
  mem = λ a. if inside buf len a then 0 else w.mem a;
}

-- The two allocations of `session_new_clp`: the address of the struct and that of the chunks.
pub clp_memory : Arena → Run (ℕ × ℕ)
clp_memory a = do
  (a1, clp_new) ← or_fault (arena_alloc a clp_size)
  (a2, pbuf) ← or_fault (arena_alloc a1 pool_size)
  if clp_new == 0
      then stopped (exited 1)
      else if pbuf == 0
      then stopped (exited 2)
      else ok (clp_new, pbuf)

-- `mapping` is what `sys_mmap` returns, `none` for an error.
unfoldable pub session_new_clp : Option ℕ → World → Run World
session_new_clp none w = stopped (exited 1)
session_new_clp (some buf) w =
    let size = pool_size + clp_size in
    let w1 = map_zero buf (page_aligned size) w in
    do
      (clp_new, pbuf) ← clp_memory (arena_create buf size)
      (cs, p) ← or_fault (pool_init nodes w1.clients pbuf pool_size client_size default_alignment)
      ok (record w1 {
        clients = cs;
        pools =
            w1.pools
            ++ record {
              base = clp_new;
              p = p;
              free_ch = p.buf_len / p.chunk_size;
              used_ch = 0;
              client = 0;
            }
              ∷ [];
      })

-- One chunk fewer is free.
abbrev pub count_new : ClientPool → Pool → ℕ → ClientPool
count_new clp p c = record clp {
  p = p;
  client = c;
  free_ch = clp.free_ch - 1;
  used_ch = clp.used_ch + 1;
}

-- A pool with a free chunk: its first chunk goes to the front of the list of clients. A write
-- through nil is a fault.
pub take_chunk : Clients → ClientPool → Run (ℕ × Clients × ClientPool)
take_chunk cs clp =
    let (c, p) = pool_get nodes cs clp.p in
    if c == 0
    then stopped fault
    else ok (c, update cs c (record (cs c) { next = clp.client }), count_new clp p c)

-- The loop of `session_new`; nil where no pool has a free chunk.
pub new_in_pools : Clients → List ClientPool → Run (ℕ × Clients × List ClientPool)
new_in_pools cs [] = ok (0, cs, [])
new_in_pools cs (clp ∷ rest) =
    if ltb 0 clp.free_ch
    then (do (c, cs', clp') ← take_chunk cs clp; ok (c, cs', clp' ∷ rest))
    else (do (c, cs', rest') ← new_in_pools cs rest; ok (c, cs', clp ∷ rest'))

-- The first chunk of the last pool, for which `next` is left as it is.
pub new_in_last : Clients → List ClientPool → ℕ × List ClientPool
new_in_last cs [] = (0, [])
new_in_last cs (clp ∷ []) = let (c, p) = pool_get nodes cs clp.p in (c, count_new clp p c ∷ [])
new_in_last cs (clp ∷ next ∷ rest) =
    let (c, rest') = new_in_last cs (next ∷ rest) in (c, clp ∷ rest')

-- The new client, or nil, and the state.
unfoldable pub session_new : Option ℕ → World → Run (ℕ × World)
session_new mapping w = do
  (c, cs, pools) ← new_in_pools w.clients w.pools
  if c == 0
      then (if length w.pools == max_pools then ok (0, w) else (do
        w1 ← session_new_clp mapping w
        let r = new_in_last w1.clients w1.pools
        ok (r.0, record w1 { pools = r.1 })))
      else ok (c, record w { clients = cs; pools = pools })
