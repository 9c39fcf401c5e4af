-- ===== src/Chat/Line/Safe.antt =====
-- `check_line_and_send` keeps the state safe.
use chat_server.Base.{ℕ, ◌≡◌, ◌∙◌, ap, refl, Option, List, [], ◌∷◌}
use chat_server.Chat.State.{Clients, World, Run, ok}
use chat_server.Chat.Line.{check_line_and_send}
use chat_server.Chat.Line.Says.{told, IsNamed, check_line_and_send-Says}
use chat_server.Chat.Send.Laws.{deliveries}
use chat_server.Chat.Watch.{Table, interest, interest-append, interest-deliveries, Quiet}
use chat_server.Chat.Frame.{Confined}
use chat_server.Chat.Invariant.{View, connected}

pub interest-told :
    (cs : Clients) (msgs : List (List ℕ)) (c : ℕ) (xs : List ℕ) (t : Table)
    → interest (told cs msgs c xs) t ≡ t
interest-told cs [] c xs t = refl
interest-told cs (msg ∷ msgs) c xs t =
    interest-append (deliveries cs msg c xs) (told cs msgs c xs) t
    ∙ ap (interest (told cs msgs c xs)) (interest-deliveries cs msg c xs t)
    ∙ interest-told cs msgs c xs t

-- What `check_line_and_send` leaves: the client is as before, but for its buffer.
pub record Sends (c : ℕ) (w : World) (vs : List View) (r : Run World) : Type 0 where
  pub after : World
  pub returns : r ≡ ok after
  pub named : IsNamed after vs c
  pub confined : Confined c w after
  pub quiet : Quiet w after

-- In a safe state and for a connected client with a name and with its counts within its arrays,
-- `check_line_and_send` ends in such a state, with a line in the buffer or without one, and touches
-- no other client's name and buffer.
pub check_line_and_send-Sends :
    (clock : Option ℕ) (c : ℕ) (w : World) (vs : List View)
    → IsNamed w vs c
    → Sends c w vs (check_line_and_send clock c w)
check_line_and_send-Sends clock c w vs i =
    let s = check_line_and_send-Says clock c w vs i in
    record {
      after = s.after;
      returns = s.returns;
      named = s.named;
      confined = s.confined;
      quiet = record {
        same_fd = s.same_fds;
        same_table = λ t.
            ap (λ os. interest os t) s.sent
            ∙ interest-append w.out _ t
            ∙ interest-told w.clients _ c (connected vs) (interest w.out t);
      };
    }
