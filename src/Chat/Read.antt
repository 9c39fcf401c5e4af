-- ===== src/Chat/Read.antt =====
-- `session_name_read` and `session_line_read` of src/chat_server.c. What `sys_read` answers, call by
-- call, is a list; the call behind its end answers EAGAIN. The counters of a client are far below
-- 2 ^ 31 here.
pub mod Name
pub mod Loop
pub mod Enter
pub mod Safe
pub mod Rounds
pub mod Lines
pub mod Hears
pub mod Naming
pub mod Enters
pub mod Leaving
pub mod Answers
use chat_server.Base.{
  ℕ, zero, ◌-◌, take, suc, ◌+◌, ◌||◌, Bool, Option, some, none, true, false, List, [], ◌∷◌, ltb,
  ◌==◌, if◌then◌else◌, length,
}
use chat_server.Memory.{Mem, store, bytes}
use chat_server.Builtin.Slices.{
  unsafe_slice, slice_left, slice_right, get_string, c_nstring_in_slice, literal_in_slice, put,
}
use chat_server.Chat.State.{
  Client, update, World, Run, ok, ◌>>=◌, or_fault, emit, write, max_line_len, max_name_len, buf_of,
  name_of,
}
use chat_server.Chat.Send.{session_send_all}
use chat_server.Chat.Line.{literal_at, nstring_at, check_line_and_send}
use chat_server.Chat.Close.{session_close}

-- EINTR, another error, or the bytes that are there to be read, none at the end of the file.
pub data Answer : Type 0 where
  interrupted : Answer
  failed : Answer
  got : List ℕ → Answer

-- "Name too long! Good bye...\n" and "Line too long! Good bye...\n"
abbrev too_long : List ℕ
too_long =
    b' ' ∷ b't' ∷ b'o' ∷ b'o' ∷ b' ' ∷ b'l' ∷ b'o' ∷ b'n' ∷ b'g' ∷ b'!' ∷ b' ' ∷ b'G' ∷ b'o' ∷ b'o'
    ∷ b'd' ∷ b' ' ∷ b'b' ∷ b'y' ∷ b'e' ∷ b'.' ∷ b'.' ∷ b'.' ∷ 10 ∷ []

abbrev pub too_long_name : List ℕ
too_long_name = b'N' ∷ b'a' ∷ b'm' ∷ b'e' ∷ too_long

abbrev pub too_long_msg : List ℕ
too_long_msg = b'L' ∷ b'i' ∷ b'n' ∷ b'e' ∷ too_long

-- "Welcome to the chat, you are known as "
abbrev pub welcome_msg : List ℕ
welcome_msg =
    b'W' ∷ b'e' ∷ b'l' ∷ b'c' ∷ b'o' ∷ b'm' ∷ b'e' ∷ b' ' ∷ b't' ∷ b'o' ∷ b' ' ∷ b't' ∷ b'h' ∷ b'e'
    ∷ b' ' ∷ b'c' ∷ b'h' ∷ b'a' ∷ b't' ∷ b',' ∷ b' ' ∷ b'y' ∷ b'o' ∷ b'u' ∷ b' ' ∷ b'a' ∷ b'r'
    ∷ b'e' ∷ b' ' ∷ b'k' ∷ b'n' ∷ b'o' ∷ b'w' ∷ b'n' ∷ b' ' ∷ b'a' ∷ b's' ∷ b' ' ∷ []

-- " has entered the chat\n"
abbrev pub entered_msg : List ℕ
entered_msg =
    b' ' ∷ b'h' ∷ b'a' ∷ b's' ∷ b' ' ∷ b'e' ∷ b'n' ∷ b't' ∷ b'e' ∷ b'r' ∷ b'e' ∷ b'd' ∷ b' ' ∷ b't'
    ∷ b'h' ∷ b'e' ∷ b' ' ∷ b'c' ∷ b'h' ∷ b'a' ∷ b't' ∷ 10 ∷ []

-- Does the loop of a handler go on, or has the handler returned?
pub data Ended : Type 0 where
  going : World → Ended
  returned : World → Ended

-- `session_close(c, serv); return;`
abbrev pub closed : Run World → Run Ended
closed r = do w ← r; ok (returned w)

-- What `session_name_read` does with the bytes that `sys_read` has stored at the offset bufn.
unfoldable pub name_got : List ℕ → ℕ → ℕ → World → Run Ended
name_got [] c bufn w = closed (session_close c w)
name_got (x ∷ xs) c bufn w =
    let used = (w.clients c).name_used + length (x ∷ xs) in
    let w1 = record w {
      clients = update w.clients c (record (w.clients c) { name_used = used });
      mem = put w.mem (name_of c + bufn) (x ∷ xs);
    } in
    if ltb max_name_len used
    then closed (session_close c (emit w1 (write (w1.clients c).fd too_long_name ∷ [])))
    else ok (going w1)

-- The loop of `session_name_read`, which reads to the offset bufn each time. `sys_read` never
-- returns more than it is asked for.
pub name_loop : List Answer → ℕ → ℕ → World → Run Ended
name_loop [] c bufn w = ok (going w)
name_loop (interrupted ∷ more) c bufn w = name_loop more c bufn w
name_loop (failed ∷ more) c bufn w = closed (session_close c w)
name_loop (got sent ∷ more) c bufn w = do
  end ← name_got (take (max_name_len - bufn) sent) c bufn w
  elim end [ returned w1 ↦ ok (returned w1) | going w1 ↦ name_loop more c bufn w1 ]

-- The same for `session_line_read`, where the end of the file sends the line first.
unfoldable pub line_got : Option ℕ → List ℕ → ℕ → ℕ → World → Run Ended
line_got clock [] c bufp w = closed (do w1 ← check_line_and_send clock c w; session_close c w1)
line_got clock (x ∷ xs) c bufp w =
    let used = (w.clients c).buf_used + length (x ∷ xs) in
    let w1 = record w {
      clients = update w.clients c (record (w.clients c) { buf_used = used });
      mem = put w.mem (buf_of c + bufp) (x ∷ xs);
    } in
    if ltb max_line_len used
    then closed (session_close c (emit w1 (write (w1.clients c).fd too_long_msg ∷ [])))
    else ok (going w1)

pub line_loop : Option ℕ → List Answer → ℕ → ℕ → World → Run Ended
line_loop clock [] c bufp w = ok (going w)
line_loop clock (interrupted ∷ more) c bufp w = line_loop clock more c bufp w
line_loop clock (failed ∷ more) c bufp w = closed (session_close c w)
line_loop clock (got sent ∷ more) c bufp w = do
  end ← line_got clock (take (max_line_len - bufp) sent) c bufp w
  elim end [ returned w1 ↦ ok (returned w1) | going w1 ↦ line_loop clock more c bufp w1 ]

-- for (n = 0; n < c->name_used; n++), with the rounds that are left: the end of the line becomes the
-- end of the name, and ends the loop, since `name_used` is then n.
pub cut_name : ℕ → ℕ → ℕ → World → World
cut_name zero c n w = w
cut_name (suc left) c n w =
    let rest = cut_name left c (n + 1) w in
    let ch = w.mem (name_of c + n) in
    if (ch == 10) || (ch == 13)
    then record w {
      clients = update w.clients c (record (w.clients c) { name_ok = 1; name_used = n });
      mem = store w.mem (name_of c + n) 0;
    }
    else rest

-- The client is welcomed, and the others are told.
pub enter_chat : ℕ → World → Run World
enter_chat c w =
    let s = unsafe_slice w.stack (length welcome_msg + 1 + max_name_len) in
    let used = (w.clients c).name_used in
    let (m1, n1) =
      literal_at s (10 ∷ []) (
        nstring_at s (name_of c) used
          (literal_in_slice w.mem s welcome_msg (length welcome_msg))) in
    let (m2, n2) = literal_at s entered_msg (c_nstring_in_slice m1 s (name_of c) used) in
    do
      r ← or_fault (slice_right s n2)
      session_send_all (get_string r) c
          (emit (record w { mem = m2 }) (write (w.clients c).fd (bytes m1 w.stack n1) ∷ []))

unfoldable pub session_name_read : List Answer → ℕ → World → Run World
session_name_read answers c w = do
  end ← name_loop answers c (w.clients c).name_used w
  elim end [
    | returned w1 ↦ ok w1
    | going w1 ↦
        let w2 = cut_name (w1.clients c).name_used c 0 w1 in
        if (w2.clients c).name_ok == 1 then enter_chat c w2 else ok w2
  ]

unfoldable pub session_line_read : Option ℕ → List Answer → ℕ → World → Run World
session_line_read clock answers c w = do
  end ← line_loop clock answers c (w.clients c).buf_used w
  elim end [ returned w1 ↦ ok w1 | going w1 ↦ check_line_and_send clock c w1 ]
