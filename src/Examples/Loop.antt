-- ===== src/Examples/Loop.antt =====
-- The event loop with the clients of the examples.
use chat_server.Base.{
  Bool-cases, inr, sym, ◌∙◌, ◌-◌, take, ℕ, ◌≡◌, inl, refl, subst, true, some, none, List, [], ◌∷◌,
  arith, ◌==◌, if◌then◌else◌, has, append-nil,
}
use chat_server.Pool.FreeList.{chunks}
use chat_server.Chat.State.{reuse_address, bind, listen, World}
use chat_server.Chat.New.{zero_client}
use chat_server.Chat.Handler.{Handles}
use chat_server.Chat.Read.{got, session_name_read, session_line_read}
use chat_server.Chat.Read.Safe.{session_name_read-Handles}
use chat_server.Chat.Read.Lines.{session_line_read-Handles}
use chat_server.Chat.Server.Greeting.{Greets, accept_one-Greets}
use chat_server.Examples.Server.{mapped, mapped-IsMapping, behind_pool}
use chat_server.Chat.Server.{
  accept_one, refused, accepted, Event, incoming, readable, wait_failed, woken, Setup,
  server_handle, server_loop, server_init, start,
}
use chat_server.Chat.Server.Accepting.{MapsFree, MapFree, Served, server_handle-Served}
use chat_server.Chat.Server.History.{Visits, History}
use chat_server.Chat.Server.Running.{IsKernel, Runs, server_loop-Runs}
use chat_server.Chat.Server.Init.{server_init_fails}
use chat_server.Chat.Server.Start.{Started, entered, start-Started}
use chat_server.Chat.State.{emit, watch}
use chat_server.Chat.Watch.{AreWatched}
use chat_server.Chat.Server.Accepting.{emit-IsRunning}
use chat_server.Chat.Frame.{IsRunning}
use chat_server.Chat.Server.Fresh.{IsFree, chunks_in, chunks_spaced}
use chat_server.Chat.Invariant.{chunks_of}
use chat_server.Examples.Data.{first, bob, ann, talking, talking-IsServer, view, two_more}

chunk : (a : ℕ) → has a (chunks_of (view ∷ [])) ≡ true → has a (chunks first 568 1023) ≡ true
chunk a h =
    rw two_more (subst (λ xs. has a (bob ∷ ann ∷ xs) ≡ true) (append-nil (chunks first 568 1021)) h)

pub talking-IsRunning : IsRunning talking (view ∷ [])
talking-IsRunning = record {
  safe = record {
    server = talking-IsServer;
    few = omega arith;
    sound = λ a h.
        let p = chunks_in first 568 1023 a (chunk a h) in
        record { apart = inl (omega (arith, p.1)); name = ground arith };
    spaced = λ a b h k. chunks_spaced first 568 1023 a b (chunk a h) (chunk b k);
  };
  counts = λ a h. ground arith;
}

-- Both are watched, and so is the listening socket, with the server's struct at 100.
abbrev watching : World
watching = emit talking (watch 3 100 ∷ watch 5 bob ∷ watch 6 ann ∷ [])

watching-IsRunning : IsRunning watching (view ∷ [])
watching-IsRunning = emit-IsRunning talking (view ∷ []) _ talking-IsRunning

watching-AreWatched : AreWatched 100 watching (view ∷ [])
watching-AreWatched fd p e = elim (Bool-cases (fd == 6)) [
  | inl six ↦
      let own : some ann ≡ some p = sym (rw six refl) ∙ e in
      let who : ann ≡ p = cc (own) in inr (ground (arith, who), ground (arith, who, six))
  | inr not_six ↦ elim (Bool-cases (fd == 5)) [
    | inl five ↦
        let own : some bob ≡ some p = sym (rw (not_six, five) refl) ∙ e in
        let who : bob ≡ p = cc (own) in inr (ground (arith, who), ground (arith, who, five))
    | inr not_five ↦ elim (Bool-cases (fd == 3)) [
      | inl three ↦
          let own : some 100 ≡ some p = sym (rw (not_six, not_five, three) refl) ∙ e in
          inl (cc (own))
      | inr other ↦
          let never : none ≡ some p = sym (rw (not_six, not_five, other) refl) ∙ e in absurd (cc)
    ]
  ]
]

-- Bob sends a line, and somebody connects.
abbrev events : List Event
events =
    readable bob (some 1696766034) (got (b'x' ∷ 10 ∷ []) ∷ [])
    ∷ incoming (refused ∷ accepted 9 none true ∷ [])
    ∷ []

no_maps : (w : World) (fd : ℕ) → MapsFree (accepted fd none true) w
no_maps w fd vs i buf e = absurd (cc)

maps : (w : World) → MapFree (refused ∷ accepted 9 none true ∷ []) w
maps w = (tt, λ w1 e1. (no_maps w1 9, λ w2 e2. tt))

kernel : IsKernel 100 (wait_failed ∷ woken events ∷ []) watching
kernel = (
  record {
    once = (refl, tt);
    watched = λ c h. let e : c ≡ bob = ground arith in rw e (omega arith, (5, refl));
  },
  λ w1 e1. (maps w1, λ w2 e2. tt),
  λ w1 e1. tt,
)

server_loop-Runs_example :
    Runs
      (History (wait_failed ∷ woken events ∷ []))
      100
      (view ∷ [])
      (server_loop (wait_failed ∷ woken events ∷ []) watching)
server_loop-Runs_example =
    server_loop-Runs 100 (wait_failed ∷ woken events ∷ []) watching (view ∷ []) watching-IsRunning
      watching-AreWatched kernel

server_handle-Served_example :
    Served
      (Visits (refused ∷ accepted 9 none true ∷ []))
      talking
      (view ∷ [])
      (server_handle (refused ∷ accepted 9 none true ∷ []) talking)
server_handle-Served_example =
    server_handle-Served (refused ∷ accepted 9 none true ∷ []) talking (view ∷ []) talking-IsRunning
      (maps talking)

session_line_read-Handles_example :
    Handles bob talking
      (view ∷ [])
      (session_line_read (some 1696766034) (got (b'x' ∷ 10 ∷ []) ∷ []) bob talking)
session_line_read-Handles_example =
    session_line_read-Handles (some 1696766034) bob (view ∷ []) (got (b'x' ∷ 10 ∷ []) ∷ []) talking
      (record {
        safe = talking-IsRunning.safe;
        there = refl;
        has_name = omega arith;
        counted = (omega arith, omega arith);
      })

session_name_read-Handles_example :
    Handles ann talking (view ∷ []) (session_name_read (got (b'x' ∷ 10 ∷ []) ∷ []) ann talking)
session_name_read-Handles_example =
    session_name_read-Handles ann (view ∷ []) (got (b'x' ∷ 10 ∷ []) ∷ []) talking (record {
      safe = talking-IsRunning.safe;
      there = refl;
      nameless = refl;
      counted = (omega arith, omega arith);
    })

-- The server starts at once.
abbrev empty : World
empty = record { clients = λ a. zero_client; mem = λ a. 0; pools = []; stack = 1000; out = [] }

abbrev setup : Setup
setup = record { socket = some 3; option_set = true; bound = true; listening = true }

empty-IsFree : IsFree empty [] 8192
empty-IsFree = record {
  mapping = record {
    on_page = refl;
    ne_nil = omega arith;
    ends = omega arith;
    disjoint = λ a h. refl;
  };
  structs = λ a h. absurd (cc);
  stack = inl (omega arith);
}

first-IsKernel :
    (w : World) → IsKernel 100 (woken (incoming (accepted 9 none true ∷ []) ∷ []) ∷ []) w
first-IsKernel w = (
  record { once = tt; watched = λ c h. absurd (cc) },
  ((no_maps w 9, λ w1 e1. tt), λ w1 e1. tt),
  λ w1 e1. tt,
)

start-Started_example : Started (
    start
      (some 8192)
      setup
      (some 4)
      true
      (woken (incoming (accepted 9 none true ∷ []) ∷ []) ∷ [])
      100
      empty)
start-Started_example =
    start-Started 8192 setup (some 4) true (woken (incoming (accepted 9 none true ∷ []) ∷ []) ∷ [])
      100 empty refl refl empty-IsFree (λ w1 e. first-IsKernel (entered setup 100 w1))

server_init_fails_example :
    ((server_init setup 7070).0 ≡ 0)
    × ((server_init setup 7070).2
        ≡ take (if (server_init setup 7070).0 == 0 then 3 else (server_init setup 7070).0 - 2) (
            reuse_address (server_init setup 7070).1
            ∷ bind (server_init setup 7070).1 40475
            ∷ listen (server_init setup 7070).1 128
            ∷ []))
server_init_fails_example = server_init_fails setup 7070 (omega arith)

mapped-IsFree : IsFree talking (view ∷ []) mapped
mapped-IsFree = record {
  mapping = mapped-IsMapping (view ∷ []) behind_pool;
  structs = λ a h. let p = chunks_in first 568 1023 a (chunk a h) in inl (omega (arith, p.1));
  stack = inl (omega arith);
}

accept_one-Greets_example :
    Greets 9 talking (view ∷ []) (accept_one (accepted 9 (some mapped) true) talking)
accept_one-Greets_example =
    accept_one-Greets 9 mapped talking (view ∷ []) talking-IsRunning mapped-IsFree (omega arith)
