-- ===== src/Chat/Send/Message.antt =====
-- The end of every handler that has filled its array `msg`: the filled part is sent to the others.
use chat_server.Base.{ℕ, ◌≡◌, List, true, arith, leb}
use chat_server.Memory.{Mem}
use chat_server.Builtin.Slices.{unsafe_slice, slice_right, get_string}
use chat_server.Builtin.Slices.Fill.{Filled}
use chat_server.Chat.State.{World, ok, ◌>>=◌, or_fault, emit}
use chat_server.Chat.Send.{session_send_all}
use chat_server.Chat.Send.Laws.{deliveries, session_send_all-deliveries}
use chat_server.Chat.Invariant.{View, IsServer, connected}

module _ (w : World) (vs : List View) (i : IsServer w vs) where
  pub send-Filled :
      (base size n except : ℕ) (m m' : Mem) (text : List ℕ)
      → Filled base size m m' n text
      → (do
        r ← or_fault (slice_right (unsafe_slice base size) n)
        session_send_all (get_string r) except (record w { mem = m' }))
        ≡ ok (emit (record w { mem = m' }) (deliveries w.clients text except (connected vs)))
  unfolding slice_right unsafe_slice get_string
  send-Filled base size n except m m' text f =
      let fits : leb n size ≡ true = ground (arith, f.fits) in
      let j : IsServer (record w { mem = m' }) vs = record {
        pools = i.pools;
        distinct = i.distinct;
      } in
      rw (fits, ← f.reads)
        (session_send_all-deliveries (record { base = base; len = n }) except
          (record w { mem = m' }) vs j)
