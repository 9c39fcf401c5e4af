-- ===== src/Chat/Line.antt =====
-- `check_line_and_send` of src/chat_server.c.
pub mod Laws
pub mod Safe
pub mod Says
use chat_server.Base.{
  ℕ, zero, suc, ◌+◌, ◌-◌, ◌^◌, Option, none, some, List, [], ◌∷◌, ltb, ◌==◌, if◌then◌else◌, length,
}
use chat_server.Memory.{Mem}
use chat_server.Builtin.Memcpy.{memmove}
use chat_server.Builtin.Slices.{
  Slice, unsafe_slice, slice_left, slice_right, get_string, c_nstring_in_slice, literal_in_slice,
}
use chat_server.Builtin.Text.{c_string_in_slice}
use chat_server.Time.{time_to_tm, tm_in_slice2}
use chat_server.Chat.State.{
  Client, update, World, Run, ok, ◌>>=◌, or_fault, max_line_len, max_name_len, buf_of, name_of,
}
use chat_server.Chat.Send.{session_send_all}

-- The rounds of `for (i = 0; i < n; i++)` for the 32-bit pattern n of an int.
abbrev pub int_rounds : ℕ → ℕ
int_rounds n = if ltb n (2 ^ 31) then n else 0

-- The loop that looks for '\n', with the rounds that are left.
pub find_newline : ℕ → Mem → ℕ → ℕ → Option ℕ
find_newline zero m buf i = none
find_newline (suc left) m buf i =
    let rest = find_newline left m buf (i + 1) in if m (buf + i) == 10 then some i else rest

-- i += c_nstring_in_slice(slice_left(s, i), ...), for a literal and for a part of the client's
-- buffer.
abbrev pub literal_at : Slice → List ℕ → Mem × ℕ → Mem × ℕ
literal_at s text (m, i) =
    let (m', k) = literal_in_slice m (slice_left s i) text (length text) in (m', i + k)

abbrev pub nstring_at : Slice → ℕ → ℕ → Mem × ℕ → Mem × ℕ
nstring_at s src n (m, i) = let (m', k) = c_nstring_in_slice m (slice_left s i) src n in (m', i + k)

-- i += tm_in_slice2(slice_left(s, i), &t);
abbrev pub clock_at : Slice → ℕ → Mem × ℕ → Mem × ℕ
clock_at s sec (m, i) =
    let (m', k) = tm_in_slice2 m (slice_left s i) (time_to_tm sec) in (m', i + k)

-- What follows the name. `clock` is what `sys_clock_gettime` answers, `none` for an error.
pub line_rest : Option ℕ → Slice → ℕ → ℕ → Mem × ℕ → Mem × ℕ
line_rest none s buf n r = nstring_at s buf n (literal_at s (b':' ∷ b' ' ∷ []) r)
line_rest (some sec) s buf n r =
    nstring_at s buf n
      (literal_at s (b')' ∷ b':' ∷ b' ' ∷ []) (clock_at s sec (literal_at s (b' ' ∷ b'(' ∷ []) r)))

-- The line is taken out of the client's buffer: `c->buf_used -= pos + 1; memmove(...)`.
pub take_line : ℕ → ℕ → World → World
take_line c n w =
    let left = (w.clients c).buf_used - n in
    record w {
      clients = update w.clients c (record (w.clients c) { buf_used = left });
      mem = (memmove w.mem (buf_of c) (buf_of c + n) left).0;
    }

-- The line of n bytes at the front of the buffer is sent to the others.
pub send_line : Option ℕ → ℕ → ℕ → World → Run World
send_line clock c n w =
    let s = unsafe_slice w.stack (max_line_len + max_name_len + 17) in
    do
      named ← or_fault (c_string_in_slice w.mem s (name_of c))
      let (m, i) = line_rest clock s (buf_of c) n named
      r ← or_fault (slice_right s i)
      session_send_all (get_string r) c (record w { mem = m })

unfoldable pub check_line_and_send : Option ℕ → ℕ → World → Run World
check_line_and_send clock c w =
    elim (find_newline (int_rounds (w.clients c).buf_used) w.mem (buf_of c) 0) [
      | none ↦ ok w
      | some p ↦ do w1 ← send_line clock c (p + 1) w; ok (take_line c (p + 1) w1)
    ]
