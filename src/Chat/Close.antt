-- ===== src/Chat/Close.antt =====
-- `session_close` of src/chat_server.c.
pub mod Unlink
pub mod Laws
pub mod Views
pub mod Session
pub mod Safe
pub mod Array
use chat_server.Base.{
  ℕ, zero, suc, ◌+◌, ◌-◌, ◌&&◌, Bool, Option, none, some, List, [], ◌∷◌, ltb, ◌++◌, ◌==◌,
  if◌then◌else◌, length, true, false,
}
use chat_server.Memory.{Mem}
use chat_server.Builtin.Slices.{
  Slice, unsafe_slice, slice_left, slice_right, get_string, c_nstring_in_slice, literal_in_slice,
}
use chat_server.Pool.{pool_put}
use chat_server.Chat.State.{
  Client, Clients, update, nodes, ClientPool, Out, close, munmap, World, Run, ok, stopped,
  no_rounds, ◌>>=◌, or_fault, rounds, emit, max_line_len, name_of,
}
use chat_server.Chat.Send.{session_send_all}

-- " has left the chat\n", and `sizeof` of it less one.
abbrev pub left_msg : List ℕ
left_msg =
    b' ' ∷ b'h' ∷ b'a' ∷ b's' ∷ b' ' ∷ b'l' ∷ b'e' ∷ b'f' ∷ b't' ∷ b' ' ∷ b't' ∷ b'h' ∷ b'e' ∷ b' '
    ∷ b'c' ∷ b'h' ∷ b'a' ∷ b't' ∷ 10 ∷ []

-- The message to the others, if the client had a name.
pub say_left : ℕ → World → Run World
say_left c w =
    let s = unsafe_slice w.stack (max_line_len + (length left_msg + 1)) in
    let (m1, n1) = c_nstring_in_slice w.mem s (name_of c) (w.clients c).name_used in
    let (m2, n2) = literal_in_slice m1 (slice_left s n1) left_msg (length left_msg) in
    do
      r ← or_fault (slice_right s (n1 + n2))
      session_send_all (get_string r) c (record w { mem = m2 })

-- What `pcur` points to: the head of a pool's list, or a client's field `next`.
pub data Field : Type 0 where
  root : Field
  next_of : ℕ → Field

abbrev pub load_field : Clients → ℕ → Field → ℕ
load_field cs head root = head
load_field cs head (next_of p) = (cs p).next

abbrev pub store_field : Clients → ℕ → Field → ℕ → Clients × ℕ
store_field cs head root v = (cs, v)
store_field cs head (next_of p) v = (update cs p (record (cs p) { next = v }), head)

-- The inner loop over one pool, up to and with `*pcur = (*pcur)->next`. `none`: the client is not
-- in this pool.
pub unlink : ℕ → Clients → ℕ → ℕ → Field → Run (Option (Clients × ℕ))
unlink zero cs head c pcur = stopped no_rounds
unlink (suc left) cs head c pcur =
    let cur = load_field cs head pcur in
    elim (cur == 0) [
      | true ↦ ok none
      | false ↦ elim (cur == c) [
        | true ↦ ok (some (store_field cs head pcur (cs cur).next))
        | false ↦ unlink left cs head c (next_of cur)
      ]
    ]

-- The rest of the loop's body where the client was found in the pool clp; `rest` are the pools
-- behind it. The count of the pool is positive, since it holds the client (an int would go on to
-- -1 where the number stops at 0). An emptied pool is unmapped and the pools behind it move up,
-- unless it is the only one.
pub release :
    ℕ → ℕ → Clients → ℕ → ClientPool → List ClientPool → Run (Clients × List ClientPool × List Out)
release n_pls c cs head clp rest =
    let clp' = record clp { client = head; free_ch = clp.free_ch + 1; used_ch = clp.used_ch - 1 } in
    if ltb 1 n_pls && (clp'.used_ch == 0) then ok (cs, rest, munmap clp.base 4096 ∷ []) else (do
      (cs', p') ← or_fault (pool_put nodes cs clp.p c)
      ok (cs', record clp' { p = p' } ∷ rest, []))

-- for (i = 0; i < serv->n_pls; i++)
pub close_pools : ℕ → ℕ → Clients → List ClientPool → Run (Clients × List ClientPool × List Out)
close_pools n_pls c cs [] = ok (cs, [], [])
close_pools n_pls c cs (clp ∷ rest) = do
  found ← unlink rounds cs clp.client c root
  elim found [
    | some (cs', head) ↦ release n_pls c cs' head clp rest
    | none ↦ do (cs', rest', os) ← close_pools n_pls c cs rest; ok (cs', clp ∷ rest', os)
  ]

unfoldable pub session_close : ℕ → World → Run World
session_close c w = do
  w1 ← if (w.clients c).name_ok == 1 then say_left c w else ok w
  (cs, pools, os) ← close_pools (length w1.pools) c w1.clients w1.pools
  ok (record w1 { clients = cs; pools = pools; out = w1.out ++ close (w1.clients c).fd ∷ os })
