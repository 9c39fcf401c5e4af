-- ===== src/Chat/Server/Start.antt =====
-- `_start`: from the first pool into the event loop.
use chat_server.Base.{
  ◌∙◌, Bool-cases, Option-cases, if◌then◌else◌, ap, sym, ℕ, ◌+◌, ◌≡◌, inl, inr, refl, subst, true,
  false, Bool, Option, some, none, List, [], ◌∷◌, arith, ◌==◌, has, append-nil,
}
use chat_server.Pool.FreeList.{chunks, chunks-Distinct}
use chat_server.Chat.State.{
  World, Run, ok, stopped, exited, broken_pipe, ◌>>=◌, emit, client_size, watch,
}
use chat_server.Chat.New.{clp_size, session_new_clp}
use chat_server.Chat.New.Pools.{fresh_view, Added, session_new_clp-Added}
use chat_server.Chat.Watch.{Table, unwatched, interest, interest-append, AreWatched}
use chat_server.Chat.Frame.{IsRunning}
use chat_server.Chat.Server.{returns, Wait, running, Setup, server_go, server_init, start}
use chat_server.Chat.Server.Fresh.{IsFree, chunks_in, chunks_spaced}
use chat_server.Chat.Server.Accepting.{emit-IsRunning}
use chat_server.Chat.Room.{Room}
use chat_server.Chat.Server.Running.{IsKernel, Runs, runs, ends, signalled, server_loop-Runs}
use chat_server.Chat.Invariant.{View, chunks_of}

module _ (w : World) (buf : ℕ) (empty : w.pools ≡ []) (k : IsFree w [] buf) where
  -- The state with the first pool.
  abbrev first : Added w [] buf (session_new_clp (some buf) w)
  first = session_new_clp-Added w [] buf (rw empty tt) k.mapping

  chunk :
      (a : ℕ)
      → has a (chunks_of (fresh_view buf ∷ [])) ≡ true
      → has a (chunks (buf + clp_size) client_size 1023) ≡ true
  chunk a h =
      subst (λ xs. has a xs ≡ true) (append-nil (chunks (buf + clp_size) client_size 1023)) h

  pub first_pool-IsRunning : IsRunning first.after (fresh_view buf ∷ [])
  first_pool-IsRunning = record {
    safe = record {
      server = record {
        pools = rw (first.pools_is, empty) (first.new_pool, tt);
        distinct =
            rw (append-nil (chunks (buf + clp_size) client_size 1023))
              (chunks-Distinct (buf + clp_size) client_size 1023 (omega arith));
      };
      few = omega arith;
      sound = λ a h.
          let p = chunks_in (buf + clp_size) client_size 1023 a (chunk a h) in
          record {
            apart = rw first.only_mapping.same_stack (omega (arith, p.0, p.1, k.stack));
            name = inl (first.only_mapping.nameless a (ground (arith, p.0, p.1)));
          };
      spaced =
          λ a b h l. chunks_spaced (buf + clp_size) client_size 1023 a b (chunk a h) (chunk b l);
    };
    counts = λ a h. absurd (cc);
  }

-- The server is running, or the process has ended with a code, or by SIGPIPE.
pub data Started (r : Run World) : Type 0 where
  up : (w : World) (vs : List View) → r ≡ ok w → IsRunning w vs → Started r
  down : (code : ℕ) → r ≡ stopped (exited code) → Started r
  cut : r ≡ stopped broken_pipe → Started r

Runs-Started :
    {P : Room → Room → Type 0} {serv : ℕ} {vs0 : List View} {r : Run World}
    → Runs P serv vs0 r
    → Started r
Runs-Started (runs w vs e i u p) = up w vs e i
Runs-Started (signalled e) = cut e
Runs-Started (ends e) = down 1 e

-- The state in which the loop of `server_go` is entered.
abbrev pub entered : Setup → ℕ → World → World
entered a serv w1 = emit (emit w1 (server_init a 7070).2) (watch (server_init a 7070).1 serv ∷ [])

-- Nothing but the listening socket is watched then.
set_up-interest : (a : Setup) → interest (server_init a 7070).2 unwatched ≡ unwatched
unfolding server_init
set_up-interest a = elim (Option-cases a.socket) [
  | inl no_socket ↦ rw no_socket refl
  | inr (ls, socket) ↦ elim (Bool-cases a.option_set) [
    | inr fails ↦ rw (socket, fails) refl
    | inl reused ↦ elim (Bool-cases a.bound) [
      | inr fails ↦ rw (socket, reused, fails) refl
      | inl bound ↦ elim (Bool-cases a.listening) [
        | inr fails ↦ rw (socket, reused, bound, fails) refl
        | inl listens ↦ rw (socket, reused, bound, listens) refl
      ]
    ]
  ]
]

first-AreWatched :
    (a : Setup) (serv : ℕ) (w1 : World) (vs : List View)
    → w1.out ≡ []
    → AreWatched serv (entered a serv w1) vs
first-AreWatched a serv w1 vs o fd p e =
    let ls = (server_init a 7070).1 in
    let table : interest (entered a serv w1).out unwatched fd
        ≡ (if fd == ls then some serv else none) =
      rw o (
        ap (λ (t : Table). t fd)
          (interest-append (server_init a 7070).2 (watch ls serv ∷ []) unwatched
            ∙ ap (interest (watch ls serv ∷ [])) (set_up-interest a))) in
    elim (Bool-cases (fd == ls)) [
      | inl same ↦ let q : some serv ≡ some p = sym (table ∙ rw same refl) ∙ e in inl (cc (q))
      | inr other ↦ let no : none ≡ some p = sym (table ∙ rw other refl) ∙ e in absurd (cc)
    ]

-- From a state without pools, in which nothing has been done yet, with memory for the first pool and
-- answers that keep the kernel's promises, `_start` never faults: it has ended with a code or by
-- SIGPIPE, or the server is running.
pub start-Started :
    (buf : ℕ) (a : Setup) (epfd : Option ℕ) (watched : Bool) (waits : List Wait) (serv : ℕ)
    (w : World)
    → w.pools ≡ []
    → w.out ≡ []
    → IsFree w [] buf
    → ((w1 : World)
        → session_new_clp (some buf) w ≡ ok w1
        → IsKernel serv waits (entered a serv w1))
    → Started (start (some buf) a epfd watched waits serv w)
unfolding start server_go
start-Started buf a epfd watched waits serv w empty silent k kernel =
    let p = session_new_clp-Added w [] buf (rw empty tt) k.mapping in
    let i = first_pool-IsRunning w buf empty k in
    rw p.returns (elim (Bool-cases ((server_init a 7070).0 == 0)) [
      | inr failed ↦ rw failed (down 1 refl)
      | inl fine ↦
          rw fine (goes epfd watched p.after i (p.out_is ∙ silent) (kernel p.after p.returns))
    ])
  where
    goes :
        (epfd : Option ℕ) (watched : Bool) (w1 : World)
        → IsRunning w1 (fresh_view buf ∷ [])
        → w1.out ≡ []
        → IsKernel serv waits (entered a serv w1)
        → Started (do
          end ←
              server_go epfd watched waits
                (server_init a 7070).1
                serv
                (emit w1 (server_init a 7070).2)
          elim end [ returns code w3 ↦ stopped (exited code) | running w3 ↦ ok w3 ])
    goes none watched w1 i o k = down 1 refl
    goes (some e) false w1 i o k = down 2 refl
    goes (some e) true w1 i o k =
        let j =
          emit-IsRunning (emit w1 (server_init a 7070).2) (fresh_view buf ∷ [])
            (watch (server_init a 7070).1 serv ∷ [])
            (emit-IsRunning w1 (fresh_view buf ∷ []) (server_init a 7070).2 i) in
        elim (server_loop-Runs serv waits (entered a serv w1) (fresh_view buf ∷ []) j
          (first-AreWatched a serv w1 (fresh_view buf ∷ []) o) k) [
            | runs w2 vs e i2 u p ↦ rw e (up w2 vs refl i2)
            | signalled e ↦ rw e (cut refl)
            | ends e ↦ rw e (down 1 refl)
          ]
