-- ===== src/Chat/Server/Dialogue.antt =====
-- A client's stay in the chat, from its name to its end of file, wake-up by wake-up.
use chat_server.Base.{
  ℕ, ◌≤◌, ◌≡◌, refl, ap, ap₂, ◌∙◌, Option, none, List, [], ◌∷◌, ◌++◌, arith, ◌==◌, length,
  append_assoc, append-nil, erase, true, false,
}
use chat_server.Memory.Split.{split_by}
use chat_server.Chat.State.{Clients, ClientPool, Out, write, close, World, Run, ok}
use chat_server.Chat.Send.Laws.{deliveries}
use chat_server.Chat.Close.{left_msg}
use chat_server.Chat.Close.Laws.{given_up}
use chat_server.Chat.Close.Session.{farewell}
use chat_server.Chat.Line.Laws.{line_text}
use chat_server.Chat.Line.Says.{is_zero, IsNamed, pending, shown_name, speech, told}
use chat_server.Chat.Frame.{IsSafe}
use chat_server.Chat.Close.Safe.{connected-has}
use chat_server.Chat.Read.{Answer, got, entered_msg, session_line_read}
use chat_server.Chat.Read.Safe.{IsNaming}
use chat_server.Chat.Read.Enter.{welcome_text}
use chat_server.Chat.Read.Hears.{OneRead, deliveries_same}
use chat_server.Chat.Read.Naming.{is_end}
use chat_server.Chat.Read.Leaving.{session_line_read-HangsUp}
use chat_server.Chat.Server.{readable, handle_event, handle_events, Wait, woken, server_loop}
use chat_server.Chat.Server.Remarks.{Remark, AreRemarks, IsIdle, remark-told, name-Idle}
use chat_server.Chat.Invariant.{View, connected}

-- The wake-ups of a client that sends the lines and hangs up.
abbrev pub stay : ℕ → List Remark → Option ℕ → List Wait
stay c [] clock = woken (readable c clock (got [] ∷ []) ∷ []) ∷ []
stay c (s ∷ more) clock = woken (readable c s.clock s.answers ∷ []) ∷ stay c more clock

-- What is written then: each line to all others, behind the name; that the client has left; and its
-- descriptor is closed.
abbrev pub written : Clients → List ClientPool → List View → ℕ → List ℕ → List Remark → List Out
written cs ps vs c name [] =
    deliveries cs (name ++ left_msg) c (connected vs)
    ++ close (cs c).fd ∷ given_up (length ps) c ps vs
written cs ps vs c name (s ∷ more) =
    deliveries cs (line_text s.clock name (s.line ++ 10 ∷ [])) c (connected vs)
    ++ written cs ps vs c name more

pub record Departs (c : ℕ) (vs : List View) (os : List Out) (r : Run World) : Type 0 where
  pub after : World
  pub views : List View
  pub returns : r ≡ ok after
  pub safe : IsSafe after views
  pub gone : connected views ≡ erase c (connected vs)
  pub sent : after.out ≡ os

written_same :
    (cs cs' : Clients) (ps : List ClientPool) (vs : List View) (c : ℕ) (name : List ℕ)
    (ss : List Remark)
    → ((a : ℕ) → (cs' a).fd ≡ (cs a).fd)
    → written cs' ps vs c name ss ≡ written cs ps vs c name ss
written_same cs cs' ps vs c name [] h = rw (h c) (
    ap (λ os. os ++ close (cs c).fd ∷ given_up (length ps) c ps vs)
      (deliveries_same cs cs' (name ++ left_msg) c (connected vs) h))
written_same cs cs' ps vs c name (s ∷ more) h =
    ap₂ ◌++◌ (deliveries_same cs cs' _ c (connected vs) h) (written_same cs cs' ps vs c name more h)

module _ (c : ℕ) (vs : List View) (name : List ℕ) (plain : split_by is_zero name ≡ none) where
  -- Hanging up.
  idle-HangsUp :
      (clock : Option ℕ) (w : World)
      → IsIdle w vs c name
      → Departs c vs
          (w.out ++ written w.clients w.pools vs c name [])
          (session_line_read clock (got [] ∷ []) c w)
  idle-HangsUp clock w i =
      let h = session_line_read-HangsUp clock c vs [] w i.named in
      let is_named : ((w.clients c).name_ok == 1) ≡ true =
        ground (
          arith,
          (i.named.safe.sound c (connected-has c vs i.named.there)).name,
          i.named.has_name,
        ) in
      let bye : farewell w c vs ≡ deliveries w.clients (name ++ left_msg) c (connected vs) =
        rw is_named
          (ap (λ text. deliveries w.clients (text ++ left_msg) c (connected vs)) i.called) in
      let silent : w.out
            ++ told w.clients (speech clock (shown_name w c) (pending w c)).0 c (connected vs)
          ≡ w.out =
        rw i.nothing (append-nil w.out) in
      record {
        after = h.after;
        views = h.views;
        returns = h.returns;
        safe = h.safe;
        gone = h.gone;
        sent = rw (← silent, ← bye) h.sent;
      }

  handle_named :
      (clock : Option ℕ) (answers : List Answer) (w : World)
      → IsNamed w vs c
      → handle_event (readable c clock answers) w ≡ session_line_read clock answers c w
  unfolding handle_event
  handle_named clock answers w i =
      let named : ((w.clients c).name_ok == 0) ≡ false = ground (arith, i.has_name) in rw named refl

  -- The lines, one by one, and the end.
  stay-Departs :
      (ss : List Remark) (clock : Option ℕ) (w : World)
      → AreRemarks ss
      → IsIdle w vs c name
      → Departs c vs
          (w.out ++ written w.clients w.pools vs c name ss)
          (server_loop (stay c ss clock) w)
  unfolding server_loop handle_events
  stay-Departs [] clock w k i =
      let d = idle-HangsUp clock w i in
      record {
        after = d.after;
        views = d.views;
        returns = rw (handle_named clock (got [] ∷ []) w i.named, d.returns) refl;
        safe = d.safe;
        gone = d.gone;
        sent = d.sent;
      }
  stay-Departs (s ∷ ss) clock w k i =
      let (w1, e, i1, out, fds, pools) = remark-told c vs name plain s w k.0 i in
      let d = stay-Departs ss clock w1 k.1 i1 in
      record {
        after = d.after;
        views = d.views;
        returns = rw (handle_named s.clock s.answers w i.named, e, d.returns) refl;
        safe = d.safe;
        gone = d.gone;
        sent =
            d.sent
            ∙ ap (λ os. os ++ written w1.clients w1.pools vs c name ss) out
            ∙ append_assoc w.out _ (written w1.clients w1.pools vs c name ss)
            ∙ rw pools (
                ap
                  (λ os.
                    w.out
                    ++ (deliveries w.clients (line_text s.clock name (s.line ++ 10 ∷ [])) c
                          (connected vs)
                        ++ os))
                  (written_same w.clients w1.clients w.pools vs c name ss fds));
      }

-- In a safe state, for a connected client that has sent nothing: if a wake-up brings a name, with
-- its end, then others a line each, with its end, and the last one the end of the file, and no
-- other event comes in between, the event loop handles them all; the client is welcomed by its
-- name, all others are told that it has entered, then each line behind the name, then that it has
-- left, in this order; its descriptor is closed, the first page of a pool that it was the last to
-- use, unless that is the only one, is unmapped; and the state is safe, with all others connected.
-- The name has no zero byte, and name and lines fit into their arrays.
pub server_loop-Departs :
    (c : ℕ) (vs : List View) (name : List ℕ) (ss : List Remark) (answers : List Answer)
    (first last : Option ℕ) (w : World)
    → IsNaming w vs c
    → ((w.clients c).name_used ≡ 0) × ((w.clients c).buf_used ≡ 0)
    → split_by is_zero name ≡ none
    → split_by is_end name ≡ none
    → OneRead (name ++ 10 ∷ []) answers
    → length (name ++ 10 ∷ []) ≤ 32
    → AreRemarks ss
    → Departs c vs
        (w.out
          ++ write (w.clients c).fd (welcome_text name)
            ∷ (deliveries w.clients (name ++ entered_msg) c (connected vs)
                ++ written w.clients w.pools vs c name ss))
        (server_loop (woken (readable c first answers ∷ []) ∷ stay c ss last) w)
unfolding server_loop handle_events handle_event
server_loop-Departs c vs name ss answers first last w i fresh plain one_line o fits k =
    let (w1, e, i1, out, fds, pools) =
      name-Idle c vs name plain answers w i fresh one_line o fits in
    let d = stay-Departs c vs name plain ss last w1 k i1 in
    let nameless : ((w.clients c).name_ok == 0) ≡ true = ground (arith, i.nameless) in
    let hello = write (w.clients c).fd (welcome_text name) in
    let others = deliveries w.clients (name ++ entered_msg) c (connected vs) in
    record {
      after = d.after;
      views = d.views;
      returns = rw (nameless, e, d.returns) refl;
      safe = d.safe;
      gone = d.gone;
      sent =
          d.sent
          ∙ ap (λ os. os ++ written w1.clients w1.pools vs c name ss) out
          ∙ append_assoc w.out (hello ∷ others) (written w1.clients w1.pools vs c name ss)
          ∙ rw pools (
              ap (λ os. w.out ++ hello ∷ (others ++ os))
                (written_same w.clients w1.clients w.pools vs c name ss fds));
    }
