-- ===== src/Examples/Server.antt =====
-- src/chat_server.c with two clients, of whom the first has the name "bob", in one pool whose
-- mapping begins at 4096.
use chat_server.Examples.Data.{
  first, bob, ann, clients, two_clients, view, two_clients-IsServer, talking, talking-IsServer,
}
use chat_server.Base.{
  ℕ, ◌*◌, ◌≤◌, ◌≡◌, ◌≢◌, ◌↔◌, refl, false, some, none, List, [], ◌∷◌, ◌++◌, arith, ◌==◌, has, erase,
  ◌||◌, inl, inr,
}
use chat_server.Base.Addresses.{append-not-has}
use chat_server.Memory.{bytes}
use chat_server.Builtin.Slices.{String}
use chat_server.Pool.FreeList.{chunks, has-chunks_below}
use chat_server.Chat.State.{World, ok, emit}
use chat_server.Chat.Send.{session_send_all}
use chat_server.Chat.Send.Laws.{deliveries, session_send_all-deliveries}
use chat_server.Chat.Line.{check_line_and_send}
use chat_server.Chat.Line.Laws.{HasLine, SendsLine, check_line_and_send-SendsLine}
use chat_server.Chat.Close.{session_close}
use chat_server.Chat.Close.Session.{IsClient, Closes, session_close-Closes, session_close-connected}
use chat_server.Chat.New.{session_new}
use chat_server.Chat.New.Pools.{IsMapping}
use chat_server.Chat.New.Session.{
  NewOutcome, session_new-NewOutcome, session_new-connected, session_new_capacity,
}
use chat_server.Chat.Invariant.{View, connected, chunks_of, IsServer}

abbrev hello : String
hello = record { base = 2000; len = 2 }

-- Ann reads what bob has said.
session_send_all-deliveries_example :
    session_send_all hello bob two_clients
    ≡ ok (emit two_clients (deliveries clients (bytes two_clients.mem 2000 2) bob (bob ∷ ann ∷ [])))
session_send_all-deliveries_example =
    session_send_all-deliveries hello bob two_clients (view ∷ []) two_clients-IsServer

bob-IsClient : IsClient two_clients bob
bob-IsClient = record { apart = inl (omega arith); name_fits = inr (omega arith) }

session_close-Closes_example : Closes bob two_clients (view ∷ []) (session_close bob two_clients)
session_close-Closes_example =
    session_close-Closes bob two_clients (view ∷ []) two_clients-IsServer bob-IsClient

session_close-connected_example :
    (w' : World) × (vs' : List View) × (session_close bob two_clients ≡ ok w')
    × IsServer w' vs'
    × (connected vs' ≡ erase bob (bob ∷ ann ∷ []))
session_close-connected_example =
    session_close-connected bob two_clients (view ∷ []) two_clients-IsServer bob-IsClient

-- The kernel has no memory for a further pool, and none is needed.
no-IsMapping : (buf : ℕ) → none ≡ some buf → IsMapping (view ∷ []) buf
no-IsMapping buf e = absurd cc

session_new-NewOutcome_example :
    NewOutcome none two_clients (view ∷ []) (session_new none two_clients)
session_new-NewOutcome_example =
    session_new-NewOutcome none two_clients (view ∷ []) two_clients-IsServer no-IsMapping

session_new_capacity_example :
    (session_new none two_clients ≡ ok (0, two_clients)) ↔ (2 ≡ 16 * 1023)
session_new_capacity_example =
    session_new_capacity none two_clients (view ∷ []) two_clients-IsServer (omega arith)
      no-IsMapping

abbrev pub mapped : ℕ
mapped = 1000 * 4096

pub mapped-IsMapping :
    (vs : List View) → ((a : ℕ) → mapped ≤ a → has a (chunks_of vs) ≡ false) → IsMapping vs mapped
mapped-IsMapping vs below = record {
  on_page = refl;
  ne_nil = omega arith;
  ends = omega arith;
  disjoint = λ a h. below a (ground arith);
}

pub behind_pool : (a : ℕ) → mapped ≤ a → has a (chunks_of (view ∷ [])) ≡ false
behind_pool a h = append-not-has a (bob ∷ ann ∷ []) (chunks first 568 1021 ++ []) (ground arith) (
    append-not-has a (chunks first 568 1021) []
      (has-chunks_below first 568 1021 a (omega arith) (omega arith)) refl)

session_new-connected_example :
    (c : ℕ) × (w' : World) × (vs' : List View) × (session_new (some mapped) two_clients
      ≡ ok (c, w'))
    × (c ≢ 0)
    × IsServer w' vs'
    × ((a : ℕ) → has a (connected vs') ≡ ((a == c) || has a (bob ∷ ann ∷ [])))
session_new-connected_example =
    session_new-connected mapped two_clients (view ∷ []) two_clients-IsServer
      (mapped-IsMapping (view ∷ []) behind_pool) (omega arith)

bob-HasLine : HasLine talking bob 2 3
bob-HasLine = record {
  apart = inl (omega arith);
  name = record { ends = refl; runs = λ i lt. ground arith };
  name_fits = omega arith;
  used = omega arith;
  used_fits = omega arith;
  newline = refl;
  first = λ j lt. ground arith;
}

check_line_and_send-SendsLine_example :
    SendsLine
      (some 1696766034)
      bob
      2
      3
      talking
      (view ∷ [])
      (check_line_and_send (some 1696766034) bob talking)
check_line_and_send-SendsLine_example =
    check_line_and_send-SendsLine (some 1696766034) bob 2 3 talking (view ∷ []) talking-IsServer
      refl bob-HasLine
