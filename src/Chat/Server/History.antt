-- ===== src/Chat/Server/History.antt =====
-- How the room changes with the events of the server: what the event loop promises to its clients.
use chat_server.Base.{ℕ, ◌≡◌, true, false, Option, List, [], ◌∷◌}
use chat_server.Chat.Read.{Answer}
use chat_server.Chat.Server.{Accept, accepted, Event, incoming, readable, Wait, wait_failed, woken}
use chat_server.Chat.Room.{Room, enter, leave, present}

-- A connection: it is turned away, or a client comes that was not there. The latter only for a
-- socket that can be watched.
pub data Visit : Accept → Room → Room → Type 0 where
  turned_away : (a : Accept) (r : Room) → Visit a r r
  arrives :
      (fd : ℕ) (mapping : Option ℕ) (c : ℕ) (r : Room)
      → present c r ≡ false
      → Visit (accepted fd mapping true) r (enter c r)

pub data Visits : List Accept → Room → Room → Type 0 where
  no_more : (r : Room) → Visits [] r r
  visit :
      {a : Accept} {more : List Accept} {r s t : Room}
      → Visit a r s
      → Visits more s t
      → Visits (a ∷ more) r t

-- An event: connections, or bytes of one client, who alone may leave.
pub data Turn : Event → Room → Room → Type 0 where
  visitors : {answers : List Accept} {r s : Room} → Visits answers r s → Turn (incoming answers) r s
  stays :
      (c : ℕ) (clock : Option ℕ) (answers : List Answer) (r : Room)
      → present c r ≡ true
      → Turn (readable c clock answers) r r
  departs :
      (c : ℕ) (clock : Option ℕ) (answers : List Answer) (r : Room)
      → present c r ≡ true
      → Turn (readable c clock answers) r (leave c r)

pub data Turns : List Event → Room → Room → Type 0 where
  all_done : (r : Room) → Turns [] r r
  turn :
      {e : Event} {more : List Event} {r s t : Room}
      → Turn e r s
      → Turns more s t
      → Turns (e ∷ more) r t

-- All the wake-ups.
pub data History : List Wait → Room → Room → Type 0 where
  so_far : (r : Room) → History [] r r
  sleeps : {more : List Wait} {r s : Room} → History more r s → History (wait_failed ∷ more) r s
  wakes :
      {events : List Event} {more : List Wait} {r s t : Room}
      → Turns events r s
      → History more s t
      → History (woken events ∷ more) r t
