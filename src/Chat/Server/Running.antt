-- ===== src/Chat/Server/Running.antt =====
-- The event loop of `server_go` keeps the server running.
use chat_server.Base.{
  some, ◌∙◌, subst, ℕ, ◌≡◌, ◌≢◌, refl, true, Option, List, [], ◌∷◌, arith, ◌==◌, has, Distinct,
  Bool-cases, inl, inr,
}
use chat_server.Chat.State.{World, Run, ok, stopped, exited, broken_pipe}
use chat_server.Chat.Watch.{unwatched, interest, AreWatched, Watching-AreWatched}
use chat_server.Chat.Frame.{IsRunning}
use chat_server.Chat.Room.{Room, room, present-room}
use chat_server.Chat.Server.History.{
  Turn, visitors, stays, departs, Turns, all_done, turn, History, so_far, sleeps, wakes,
}
use chat_server.Chat.Handler.{Handles-room, Handles, Handles-IsRunning}
use chat_server.Chat.Read.{Answer}
use chat_server.Chat.Read.Safe.{session_name_read-Handles}
use chat_server.Chat.Read.Lines.{session_line_read-Handles}
use chat_server.Chat.Server.{
  Event, incoming, readable, handle_event, handle_events, Wait, wait_failed, woken, killed,
  server_loop,
}
use chat_server.Chat.Server.Accepting.{goes_on, no_memory, MapFree, server_handle-Served}
use chat_server.Chat.Invariant.{View, connected}

-- The clients of a batch of events.
abbrev pub clients_in : List Event → List ℕ
clients_in [] = []
clients_in (incoming answers ∷ more) = clients_in more
clients_in (readable c clock answers ∷ more) = c ∷ clients_in more

-- The kernel's promise for the mappings, along the batch.
abbrev pub MapsAhead : List Event → World → Type 0
MapsAhead [] w = Unit {0}
MapsAhead (incoming answers ∷ more) w =
    MapFree answers w
    × ((w' : World) → handle_event (incoming answers) w ≡ ok w' → MapsAhead more w')
MapsAhead (readable c clock answers ∷ more) w =
    (w' : World) → handle_event (readable c clock answers) w ≡ ok w' → MapsAhead more w'

-- What `sys_epoll_wait` promises: each event is for a descriptor that is watched, and carries the
-- pointer that was given with it, and there is at most one event for each. A pointer to the
-- server's own struct, at serv, is the case of incoming connections.
pub record IsBatch (serv : ℕ) (events : List Event) (w : World) : Type 0 where
  pub once : Distinct (clients_in events)
  pub watched :
      (c : ℕ)
      → has c (clients_in events) ≡ true
      → (c ≢ serv) × ((fd : ℕ) × (interest w.out unwatched fd ≡ some c))

-- The promises of all calls of the loop.
abbrev pub IsKernel : ℕ → List Wait → World → Type 0
IsKernel serv [] w = Unit {0}
IsKernel serv (wait_failed ∷ more) w = IsKernel serv more w
IsKernel serv (killed events ∷ more) w = IsBatch serv events w × MapsAhead events w
IsKernel serv (woken events ∷ more) w =
    IsBatch serv events w
    × MapsAhead events w
    × ((w' : World) → handle_events events w ≡ ok w' → IsKernel serv more w')

-- A running server, with the room changed in the given way, in which all that is watched belongs to
-- connected clients; or the end of the process for want of memory, or by SIGPIPE.
pub data Runs (P : Room → Room → Type 0) (serv : ℕ) (vs : List View) (r : Run World) : Type 0 where
  runs :
      (w : World) (vs' : List View)
      → r ≡ ok w
      → IsRunning w vs'
      → AreWatched serv w vs'
      → P (room vs) (room vs')
      → Runs P serv vs r
  ends : r ≡ stopped (exited 1) → Runs P serv vs r
  signalled : r ≡ stopped broken_pipe → Runs P serv vs r

-- What comes before a run is added to it.
Runs-after :
    {P Q : Room → Room → Type 0} {serv : ℕ} (vs vs1 : List View) {r : Run World}
    → ((t : Room) → P (room vs1) t → Q (room vs) t)
    → Runs P serv vs1 r
    → Runs Q serv vs r
Runs-after vs vs1 f (runs w vs2 e i k p) = runs w vs2 e i k (f (room vs2) p)
Runs-after vs vs1 f (ends e) = ends e
Runs-after vs vs1 f (signalled e) = signalled e

-- What is readable is handled by the handler that fits.
pub readable-Handles :
    (c : ℕ) (clock : Option ℕ) (answers : List Answer) (w : World) (vs : List View)
    → IsRunning w vs
    → has c (connected vs) ≡ true
    → Handles c w vs (handle_event (readable c clock answers) w)
unfolding handle_event
readable-Handles c clock answers w vs i there = elim (Bool-cases ((w.clients c).name_ok == 0)) [
  | inl nameless ↦ rw nameless (
      session_name_read-Handles c vs answers w (record {
        safe = i.safe;
        there = there;
        nameless = ground arith;
        counted = i.counts c there;
      }))
  | inr named ↦ rw named (
      session_line_read-Handles clock c vs answers w (record {
        safe = i.safe;
        there = there;
        has_name = ground arith;
        counted = i.counts c there;
      }))
]

-- A batch of events for distinct connected clients: each is still connected when its turn comes.
pub handle_events-Runs :
    (serv : ℕ) (events : List Event) (w : World) (vs : List View)
    → IsRunning w vs
    → AreWatched serv w vs
    → Distinct (clients_in events)
    → ((c : ℕ) → has c (clients_in events) ≡ true → has c (connected vs) ≡ true)
    → MapsAhead events w
    → Runs (Turns events) serv vs (handle_events events w)
unfolding handle_events handle_event
handle_events-Runs serv [] w vs i u d there k = runs w vs refl i u (all_done (room vs))
handle_events-Runs serv (incoming answers ∷ more) w vs i u d there k =
    elim (server_handle-Served answers w vs i k.0) [
      | no_memory e ↦ rw e (ends refl)
      | goes_on w1 vs1 e i1 keeps p l ↦ rw e (
          Runs-after vs vs1 (λ t q. turn (visitors p) q)
            (handle_events-Runs serv more w1 vs1 i1 (l serv u) d (λ c h. keeps c (there c h))
              (k.1 w1 e)))
    ]
handle_events-Runs serv (readable c clock answers ∷ more) w vs i u d there k =
    let h = readable-Handles c clock answers w vs i (there c (ground arith)) in
    rw h.returns (
      Runs-after vs h.views (λ t q. turn (own_turn h) q)
        (handle_events-Runs serv more h.after h.views (Handles-IsRunning c w vs _ i h)
          (Watching-AreWatched serv c w h.after vs h.views u h.others h.watching) d.1
          (λ a l. others h a l) (k h.after h.returns)))
  where
    own_turn :
        {r : Run World} (h : Handles c w vs r)
        → Turn (readable c clock answers) (room vs) (room h.views)
    own_turn h =
        let here = there c (ground arith) in
        elim (Handles-room c w vs _ here h) [
          | inl same ↦
              subst (λ r. Turn (readable c clock answers) (room vs) r) same
                (stays c clock answers (room vs) (present-room c vs ∙ here))
          | inr left ↦
              subst (λ r. Turn (readable c clock answers) (room vs) r) left
                (departs c clock answers (room vs) (present-room c vs ∙ here))
        ]

    others :
        {r : Run World} (h : Handles c w vs r) (a : ℕ)
        → has a (clients_in more) ≡ true
        → has a (connected h.views) ≡ true
    others h a l = let ne : a ≢ c = ground (arith, d.0) in ground (arith, h.others a ne, there a)

-- The clients of a batch are connected, since what is watched belongs to connected clients.
batch-connected :
    (serv : ℕ) (events : List Event) (w : World) (vs : List View)
    → AreWatched serv w vs
    → IsBatch serv events w
    → (c : ℕ) → has c (clients_in events) ≡ true
    → has c (connected vs) ≡ true
batch-connected serv events w vs u b c h =
    let (ne, (fd, e)) = b.watched c h in
    elim (u fd c e) [ inl own ↦ absurd (ne own) | inr (there, d) ↦ there ]

-- From a running server in which each pointer that is watched is that of the server's own struct,
-- at serv, or of a connected client by its own descriptor, and with answers that keep the kernel's
-- promises, the event loop never faults and none of its walks fails to end: the server is running,
-- with what is watched as before, and the room has changed as the events say; or the process has
-- ended with code 1, since there is no memory for a pool that it needs, or by SIGPIPE. At most one
-- new client comes for each connection that can be watched, and none leaves then; where a client's
-- bytes are read, only this client may leave.
pub server_loop-Runs :
    (serv : ℕ) (waits : List Wait) (w : World) (vs : List View)
    → IsRunning w vs
    → AreWatched serv w vs
    → IsKernel serv waits w
    → Runs (History waits) serv vs (server_loop waits w)
unfolding server_loop
server_loop-Runs serv [] w vs i u k = runs w vs refl i u (so_far (room vs))
server_loop-Runs serv (wait_failed ∷ more) w vs i u k =
    Runs-after vs vs (λ t q. sleeps q) (server_loop-Runs serv more w vs i u k)
server_loop-Runs serv (killed events ∷ more) w vs i u k =
    elim (handle_events-Runs serv events w vs i u k.0.once (batch-connected serv events w vs u k.0)
      k.1) [
        | ends e ↦ rw e (ends refl)
        | signalled e ↦ rw e (signalled refl)
        | runs w1 vs1 e i1 u1 p ↦ rw e (signalled refl)
      ]
server_loop-Runs serv (woken events ∷ more) w vs i u k =
    elim (handle_events-Runs serv events w vs i u k.0.once (batch-connected serv events w vs u k.0)
      k.1) [
        | signalled e ↦ rw e (signalled refl)
        | ends e ↦ rw e (ends refl)
        | runs w1 vs1 e i1 u1 p ↦ rw e (
            Runs-after vs vs1 (λ t q. wakes p q)
              (server_loop-Runs serv more w1 vs1 i1 u1 (k.2 w1 e)))
      ]
