-- ===== src/Buffer.antt =====
-- lib/cfa/src/buffer.c and lib/cfa/src/iovec.c. The counters of a circular buffer are 64-bit and
-- wrap.
pub mod Laws
use chat_server.Base.{
  ℕ, ◌+◌, ◌-◌, ◌*◌, ◌/◌, ◌%◌, ◌^◌, Bool, true, false, Option, none, some, ltb, if◌then◌else◌,
}
use chat_server.Memory.{Mem}
use chat_server.Builtin.Slices.{
  u64, sub64, Slice, String, unsafe_slice, unsafe_string, slice_left_right,
}
use chat_server.Builtin.Text.{unsafe_c_string}
use chat_server.System.Errors.{Error}
use chat_server.System.{Kernel, syscall6, set_error, sys_mmap}

pub record CircularBuffer : Type 0 where
  pub buf : ℕ
  pub len : ℕ
  pub head : ℕ
  pub tail : ℕ

-- A buffer without memory.
abbrev pub no_buffer : CircularBuffer
no_buffer = record { buf = 0; len = 0; head = 0; tail = 0 }

-- The buffer, and what is stored at err.
unfoldable pub new_circular_buffer :
    {K : Type 0} → Kernel K → K → ℕ → K × CircularBuffer × Option Error
new_circular_buffer kernel k size =
    let (k1, err, buf) = sys_mmap kernel k 0 (2 * size % u64) 3 34 (2 ^ 64 - 1) 0 true in
    elim err [
      | some (some e) ↦ (k1, no_buffer, some e)
      | some none ↦ (k1, record { buf = buf; len = 2 * size % u64; head = 0; tail = 0 }, none)
      | none ↦ (k1, no_buffer, none)
    ]

unfoldable pub consume : CircularBuffer → ℕ → CircularBuffer
consume cb n =
    let head = (cb.head + n) % u64 in
    if ltb (cb.len / 2) head
    then record cb { head = sub64 head (cb.len / 2); tail = sub64 cb.tail (cb.len / 2) }
    else record cb { head = head }

unfoldable pub produce : CircularBuffer → ℕ → CircularBuffer
produce cb n = record cb { tail = (cb.tail + n) % u64 }

-- `none` is a failed assert.
unfoldable pub remaining_slice : CircularBuffer → Option Slice
remaining_slice cb =
    slice_left_right (unsafe_slice cb.buf cb.len) cb.tail ((cb.head + cb.len / 2) % u64)

unfoldable pub remaining_space : CircularBuffer → ℕ
remaining_space cb = sub64 (cb.len / 2) (sub64 cb.tail cb.head)

unfoldable pub reset : CircularBuffer → CircularBuffer
reset cb = record cb { head = 0; tail = 0 }

unfoldable pub unconsumed_len : CircularBuffer → ℕ
unconsumed_len cb = sub64 cb.tail cb.head

unfoldable pub unconsumed_slice : CircularBuffer → Slice
unconsumed_slice cb = unsafe_slice (cb.buf + cb.head) (unconsumed_len cb)

unfoldable pub unconsumed_string : CircularBuffer → String
unconsumed_string cb = unsafe_string (cb.buf + cb.head) (unconsumed_len cb)

pub record Iovec : Type 0 where
  pub iov_base : ℕ
  pub iov_len : ℕ

pub iovec_from_byte_slice : Slice → Iovec
iovec_from_byte_slice s = record { iov_base = s.base; iov_len = s.len }

pub iovec_from_string : String → Iovec
iovec_from_string s = record { iov_base = s.base; iov_len = s.len }

-- `none` is a scan for the end of the string that finds none.
unfoldable pub iovec_from_c_string : Mem → ℕ → Option Iovec
iovec_from_c_string m c_str = elim (unsafe_c_string m c_str) [
  | none ↦ none
  | some s ↦ some (iovec_from_string s)
]
