-- ===== src/Chat/Server.antt =====
-- `server_handle`, `server_go`, `server_init`, `hton` and `_start` of src/chat_server.c.
pub mod Fresh
pub mod History
pub mod Grown
pub mod Accepting
pub mod Greeting
pub mod Running
pub mod Remarks
pub mod Dialogue
pub mod Init
pub mod Start
use Prim.Native.Nat.{bit_or}
use chat_server.Base.{
  ℕ, ◌*◌, ◌/◌, ◌%◌, ◌^◌, ◌-◌, Bool, true, false, Option, none, some, List, [], ◌∷◌, ◌++◌, ◌==◌,
  if◌then◌else◌,
}
use chat_server.Chat.State.{
  Client, update, Out, write, close, watch, reuse_address, bind, listen, World, Run, ok, stopped,
  exited, broken_pipe, ◌>>=◌, emit,
}
use chat_server.Chat.New.{session_new_clp, session_new}
use chat_server.Chat.Close.{session_close}
use chat_server.Chat.Read.{Answer, session_name_read, session_line_read}

-- "Connection limit reached, rejecting client\n"
abbrev pub limit_conn_msg : List ℕ
limit_conn_msg =
    b'C' ∷ b'o' ∷ b'n' ∷ b'n' ∷ b'e' ∷ b'c' ∷ b't' ∷ b'i' ∷ b'o' ∷ b'n' ∷ b' ' ∷ b'l' ∷ b'i' ∷ b'm'
    ∷ b'i' ∷ b't' ∷ b' ' ∷ b'r' ∷ b'e' ∷ b'a' ∷ b'c' ∷ b'h' ∷ b'e' ∷ b'd' ∷ b',' ∷ b' ' ∷ b'r'
    ∷ b'e' ∷ b'j' ∷ b'e' ∷ b'c' ∷ b't' ∷ b'i' ∷ b'n' ∷ b'g' ∷ b' ' ∷ b'c' ∷ b'l' ∷ b'i' ∷ b'e'
    ∷ b'n' ∷ b't' ∷ 10 ∷ []

-- "Your name please (max 29): ", 27 bytes
abbrev pub greeting : List ℕ
greeting =
    b'Y' ∷ b'o' ∷ b'u' ∷ b'r' ∷ b' ' ∷ b'n' ∷ b'a' ∷ b'm' ∷ b'e' ∷ b' ' ∷ b'p' ∷ b'l' ∷ b'e' ∷ b'a'
    ∷ b's' ∷ b'e' ∷ b' ' ∷ b'(' ∷ b'm' ∷ b'a' ∷ b'x' ∷ b' ' ∷ b'2' ∷ b'9' ∷ b')' ∷ b':' ∷ b' ' ∷ []

-- What `sys_accept4` answers, but for EAGAIN: an error, or a socket. For a socket also what
-- `sys_mmap` would answer, and whether `sys_epoll_ctl` succeeds.
pub data Accept : Type 0 where
  refused : Accept
  accepted : ℕ → Option ℕ → Bool → Accept

-- The fields that a new connection gets.
abbrev pub greeted : World → ℕ → ℕ → World
greeted w c fd =
    emit
      (record w {
        clients =
            update w.clients c
              (record (w.clients c) { fd = fd; buf_used = 0; name_used = 0; name_ok = 0 });
      })
      (watch fd c ∷ write fd greeting ∷ [])

-- One round of the loop of `server_handle`.
unfoldable pub accept_one : Accept → World → Run World
accept_one refused w = ok w
accept_one (accepted fd mapping registered) w = do
  (c, w1) ← session_new mapping w
  if c == 0
      then ok (emit w1 (write fd limit_conn_msg ∷ close fd ∷ []))
      else (if registered then ok (greeted w1 c fd) else session_close c w1)

-- The loop, up to EAGAIN.
pub server_handle : List Accept → World → Run World
server_handle [] w = ok w
server_handle (a ∷ more) w = do w1 ← accept_one a w; server_handle more w1

-- An event of the listening socket, or of a client, with what the calls of its handler answer.
pub data Event : Type 0 where
  incoming : List Accept → Event
  readable : ℕ → Option ℕ → List Answer → Event

unfoldable pub handle_event : Event → World → Run World
handle_event (incoming answers) w = server_handle answers w
handle_event (readable c clock answers) w =
    if (w.clients c).name_ok == 0
    then session_name_read answers c w
    else session_line_read clock answers c w

-- for (i = 0; i < ev_count; i++)
pub handle_events : List Event → World → Run World
handle_events [] w = ok w
handle_events (e ∷ more) w = do w1 ← handle_event e w; handle_events more w1

-- What `sys_epoll_wait` answers; or the events that are handled before the one in which SIGPIPE, for
-- which there is no handler, ends the process.
pub data Wait : Type 0 where
  wait_failed : Wait
  woken : List Event → Wait
  killed : List Event → Wait

-- The endless loop of `server_go`, as far as the answers go.
pub server_loop : List Wait → World → Run World
server_loop [] w = ok w
server_loop (wait_failed ∷ more) w = server_loop more w
server_loop (woken events ∷ more) w = do w1 ← handle_events events w; server_loop more w1
server_loop (killed events ∷ more) w = do w1 ← handle_events events w; stopped broken_pipe

-- `server_go` has returned a number, or is in its loop.
pub data Going : Type 0 where
  returns : ℕ → World → Going
  running : World → Going

-- `epfd` is what `sys_epoll_create1` answers, and `watched` whether `sys_epoll_ctl` succeeds; serv
-- is the address of the server's struct.
unfoldable pub server_go : Option ℕ → Bool → List Wait → ℕ → ℕ → World → Run Going
server_go none watched waits ls serv w = ok (returns 1 (emit w (close ls ∷ [])))
server_go (some epfd) watched waits ls serv w =
    if watched
    then (do w1 ← server_loop waits (emit w (watch ls serv ∷ [])); ok (running w1))
    else ok (returns 2 (emit w (close epfd ∷ close ls ∷ [])))

-- (port << 8) | (port >> 8), as a 16-bit number
unfoldable pub hton : ℕ → ℕ
hton port = bit_or (port * 2 ^ 8) (port / 2 ^ 8) % 2 ^ 16

-- What the calls of `server_init` answer: the socket, and whether the others succeed.
pub record Setup : Type 0 where
  pub socket : Option ℕ
  pub option_set : Bool
  pub bound : Bool
  pub listening : Bool

abbrev pub backlog : ℕ
backlog = 128

-- The result, the field `ls` and what was done.
unfoldable pub server_init : Setup → ℕ → ℕ × ℕ × List Out
unfolding hton
server_init a port = elim a.socket [
  | none ↦ (1, 2 ^ 32 - 1, [])
  | some ls ↦
      if a.option_set
      then (if a.bound
          then (if a.listening
              then (0, ls, reuse_address ls ∷ bind ls (hton port) ∷ listen ls backlog ∷ [])
              else (4, ls, reuse_address ls ∷ bind ls (hton port) ∷ []))
          else (3, ls, reuse_address ls ∷ []))
      else (2, ls, [])
]

-- `_start`, from a state without pools: what it ends with, or the state in the loop.
unfoldable pub start : Option ℕ → Setup → Option ℕ → Bool → List Wait → ℕ → World → Run World
unfolding server_go server_init
start mapping a epfd watched waits serv w = do
  w1 ← session_new_clp mapping w
  let r = server_init a 7070
  let w2 = emit w1 r.2
  if r.0 == 0
      then (do
        end ← server_go epfd watched waits r.1 serv w2
        elim end [ returns code w3 ↦ stopped (exited code) | running w3 ↦ ok w3 ])
      else stopped (exited 1)
