-- ===== src/Examples/Talk.antt =====
-- What the clients of the examples say and read.
use chat_server.Base.{◌++◌, refl, some, none, [], ◌∷◌, arith, ◌==◌, if◌then◌else◌}
use chat_server.Chat.Line.{check_line_and_send}
use chat_server.Chat.Line.Says.{IsNamed, Says, check_line_and_send-Says}
use chat_server.Chat.Close.{close_pools}
use chat_server.Chat.Close.Array.{Slots, close_at, Agree, close_at-close_pools}
use chat_server.Chat.Read.{entered_msg, interrupted, got, session_name_read, session_line_read}
use chat_server.Chat.Read.Safe.{IsNaming}
use chat_server.Chat.Read.Hears.{once, again, Hears, session_line_read-Hears}
use chat_server.Chat.Read.Enters.{Enters, session_name_read-Enters}
use chat_server.Chat.Read.Leaving.{HangsUp, session_line_read-HangsUp}
use chat_server.Chat.State.{write}
use chat_server.Chat.Send.Laws.{deliveries}
use chat_server.Chat.Read.Enter.{welcome_text}
use chat_server.Chat.Server.{readable, woken, server_loop}
use chat_server.Chat.Server.Remarks.{Remark}
use chat_server.Chat.Server.Dialogue.{stay, written, Departs, server_loop-Departs}
use chat_server.Examples.Data.{bob, ann, pool, talking, typed, view}
use chat_server.Examples.Loop.{talking-IsRunning}

bob-IsNamed : IsNamed talking (view ∷ []) bob
bob-IsNamed = record {
  safe = talking-IsRunning.safe;
  there = refl;
  has_name = omega arith;
  counted = (omega arith, omega arith);
}

ann-IsNaming : IsNaming talking (view ∷ []) ann
ann-IsNaming = record {
  safe = talking-IsRunning.safe;
  there = refl;
  nameless = refl;
  counted = (omega arith, omega arith);
}

check_line_and_send-Says_example :
    Says
      (some 1696766034)
      bob
      talking
      (view ∷ [])
      (check_line_and_send (some 1696766034) bob talking)
check_line_and_send-Says_example =
    check_line_and_send-Says (some 1696766034) bob talking (view ∷ []) bob-IsNamed

session_line_read-Hears_example :
    Hears none bob
      (b'x' ∷ 10 ∷ [])
      talking
      (view ∷ [])
      (session_line_read none (interrupted ∷ got (b'x' ∷ 10 ∷ []) ∷ []) bob talking)
session_line_read-Hears_example =
    session_line_read-Hears none bob (view ∷ []) b'x' (10 ∷ [])
      (interrupted ∷ got (b'x' ∷ 10 ∷ []) ∷ []) talking bob-IsNamed (again once) (omega arith)

session_line_read-HangsUp_example :
    HangsUp none bob talking (view ∷ []) (session_line_read none (got [] ∷ []) bob talking)
session_line_read-HangsUp_example =
    session_line_read-HangsUp none bob (view ∷ []) [] talking bob-IsNamed

session_name_read-Enters_example :
    Enters ann
      (b'a' ∷ 10 ∷ [])
      talking
      (view ∷ [])
      (session_name_read (got (b'a' ∷ 10 ∷ []) ∷ []) ann talking)
session_name_read-Enters_example =
    session_name_read-Enters ann (view ∷ []) b'a' (10 ∷ []) (got (b'a' ∷ 10 ∷ []) ∷ []) talking
      ann-IsNaming once (omega arith)

abbrev array : Slots
array i = if i == 0 then some pool else none

close_at-close_pools_example :
    Agree array 0 (close_at 1 1 bob typed array 0) (close_pools 1 bob typed (pool ∷ []))
close_at-close_pools_example = close_at-close_pools bob typed array (pool ∷ []) (refl, tt)

-- Ann calls herself "a", says "hi", and hangs up.
abbrev hi : Remark
hi = record {
  clock = some 1696766034;
  line = b'h' ∷ b'i' ∷ [];
  answers = got (b'h' ∷ b'i' ∷ 10 ∷ []) ∷ [];
}

server_loop-Departs_example :
    Departs ann
      (view ∷ [])
      (write 6 (welcome_text (b'a' ∷ []))
        ∷ (deliveries typed (b'a' ∷ entered_msg) ann (bob ∷ ann ∷ [])
            ++ written typed (pool ∷ []) (view ∷ []) ann (b'a' ∷ []) (hi ∷ [])))
      (server_loop
        (woken (readable ann none (got (b'a' ∷ 10 ∷ []) ∷ []) ∷ []) ∷ stay ann (hi ∷ []) none)
        talking)
server_loop-Departs_example =
    server_loop-Departs ann (view ∷ []) (b'a' ∷ []) (hi ∷ []) (got (b'a' ∷ 10 ∷ []) ∷ []) none none
      talking ann-IsNaming (refl, refl) refl refl once (omega arith)
      (record { one_line = refl; one_read = once; fits = omega arith }, tt)
