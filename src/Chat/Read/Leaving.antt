-- ===== src/Chat/Read/Leaving.antt =====
-- What all others read when a client with a name hangs up.
use chat_server.Base.{
  ℕ, zero, suc, ◌-◌, ◌≡◌, refl, ap, Option, List, [], ◌∷◌, ◌++◌, arith, if◌then◌else◌, ◌==◌, length,
  take, erase,
}
use chat_server.Memory.{bytes}
use chat_server.Chat.State.{close, World, Run, ok, name_of}
use chat_server.Chat.Close.{left_msg}
use chat_server.Chat.Close.Laws.{given_up}
use chat_server.Chat.Close.Session.{IsClient, farewell, session_close-Closes}
use chat_server.Chat.Close.Safe.{session_close-Leaves, connected-has}
use chat_server.Chat.Line.Says.{
  IsNamed, pending, Says-name_bytes, shown_name, speech, told, Says, check_line_and_send-Says,
}
use chat_server.Chat.Frame.{IsSafe}
use chat_server.Chat.Read.{Answer, got, line_got, line_loop, session_line_read}
use chat_server.Chat.Read.Hears.{deliveries_same}
use chat_server.Chat.Invariant.{View, connected}

-- What the handler leaves when the client has hung up.
pub record HangsUp (clock : Option ℕ) (c : ℕ) (w : World) (vs : List View) (r : Run World)
    : Type 0 where
  pub after : World
  pub views : List View
  pub returns : r ≡ ok after
  pub safe : IsSafe after views
  pub gone : connected views ≡ erase c (connected vs)
  pub sent :
      after.out
      ≡ (w.out ++ told w.clients (speech clock (shown_name w c) (pending w c)).0 c (connected vs))
        ++ (farewell w c vs ++ close (w.clients c).fd ∷ given_up (length w.pools) c w.pools vs)

-- The farewell after the last line is the one before it.
farewell-Says :
    (clock : Option ℕ) (c : ℕ) (w : World) (vs : List View) (r : Run World)
    (s : Says clock c w vs r)
    → farewell s.after c vs ≡ farewell w c vs
farewell-Says clock c w vs r s =
    rw (s.same_fields.1, Says-name_bytes clock c w vs r s)
      (ap (λ os. if (w.clients c).name_ok == 1 then os else [])
        (deliveries_same w.clients s.after.clients
          (bytes w.mem (name_of c) (w.clients c).name_used ++ left_msg) c (connected vs)
          s.same_fds))

take_none : (n : ℕ) → take {A = ℕ} n [] ≡ []
take_none zero = refl
take_none (suc n) = refl

-- In a safe state, for a connected client with a name and with its counts within its arrays, and
-- for a wake-up in which the first read finds the end of the file: the first line of the pending
-- bytes, if one is whole, is told to all others, then they are told that the client has left; its
-- descriptor is closed, the first page of a pool that it was the last to use, unless that is the
-- only one, is unmapped, and in the safe state that is left all others are connected.
pub session_line_read-HangsUp :
    (clock : Option ℕ) (c : ℕ) (vs : List View) (more : List Answer) (w : World)
    → IsNamed w vs c
    → HangsUp clock c w vs (session_line_read clock (got [] ∷ more) c w)
unfolding session_line_read line_loop line_got
session_line_read-HangsUp clock c vs more w i =
    let s = check_line_and_send-Says clock c w vs i in
    let there = connected-has c vs i.there in
    let known = s.named.safe.sound c there in
    let k : IsClient s.after c = record {
      apart = known.apart;
      name_fits = ground (arith, known.name);
    } in
    let l = session_close-Leaves c s.after vs s.named.safe there in
    let d = session_close-Closes c s.after vs s.named.safe.server k in
    let same : l.after ≡ d.after = cc (l.returns, d.returns) in
    let parting = farewell-Says clock c w vs _ s in
    let fd : (s.after.clients c).fd ≡ (w.clients c).fd = s.same_fields.0 in
    rw (take_none (512 - (w.clients c).buf_used), s.returns, l.returns)
      (record {
        after = l.after;
        views = l.views;
        returns = refl;
        safe = l.safe;
        gone = l.still;
        sent = rw (same) (rw (← parting, ← fd, ← s.same_pools, ← s.sent) d.sent);
      })
