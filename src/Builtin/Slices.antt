-- ===== src/Builtin/Slices.antt =====
-- `slice` and `string` of lib/cfa/src/builtin.c. Lengths are 64-bit and wrap; a failed `assert`
-- stops the process, which is `none`. A string literal lies in storage that no buffer overlaps, so
-- a copy of one is a write of its bytes.
pub mod Fill
pub mod Writes
use chat_server.Base.{
  ℕ, zero, suc, ◌+◌, ◌-◌, ◌%◌, ◌^◌, Option, none, some, List, [], ◌∷◌, ltb, leb, if◌then◌else◌,
  take,
}
use chat_server.Memory.{Mem, store}
use chat_server.Builtin.Memcpy.{memcpy}

pub record Slice : Type 0 where
  pub base : ℕ
  pub len : ℕ
  pub cap : ℕ

pub record String : Type 0 where
  pub base : ℕ
  pub len : ℕ

abbrev pub u64 : ℕ
u64 = 2 ^ 64

-- a - b on uint64
abbrev pub sub64 : ℕ → ℕ → ℕ
sub64 a b = (a + u64 - b) % u64

unfoldable pub get_slice : String → Slice
get_slice s = record { base = s.base; len = s.len; cap = s.len }

unfoldable pub unsafe_slice : ℕ → ℕ → Slice
unsafe_slice buf len = record { base = buf; len = len; cap = len }

unfoldable pub slice_left : Slice → ℕ → Slice
slice_left s lbytes = record {
  base = s.base + lbytes;
  len = sub64 s.len lbytes;
  cap = sub64 s.cap lbytes;
}

unfoldable pub slice_right : Slice → ℕ → Option Slice
slice_right s rbytes =
    if leb rbytes s.cap then some (record { base = s.base; len = rbytes; cap = s.cap }) else none

unfoldable pub slice_left_right : Slice → ℕ → ℕ → Option Slice
slice_left_right s lbytes rbytes =
    if leb rbytes s.cap
    then some
        (record { base = s.base + lbytes; len = sub64 rbytes lbytes; cap = sub64 s.cap lbytes })
    else none

unfoldable pub get_string : Slice → String
get_string s = record { base = s.base; len = s.len }

unfoldable pub unsafe_string : ℕ → ℕ → String
unsafe_string buf len = record { base = buf; len = len }

unfoldable pub string_left : String → ℕ → String
string_left s lbytes = record { base = s.base + lbytes; len = sub64 s.len lbytes }

unfoldable pub string_right : String → ℕ → String
string_right s rbytes = record { base = s.base; len = rbytes }

unfoldable pub string_left_right : String → ℕ → ℕ → String
string_left_right s lbytes rbytes = record { base = s.base + lbytes; len = sub64 rbytes lbytes }

-- The memory afterwards, and how many bytes were copied.
unfoldable pub copy : Mem → Slice → Slice → Mem × ℕ
copy m dst src =
    let l = if ltb src.len dst.len then src.len else dst.len in
    ((memcpy m dst.base src.base l).0, l)

unfoldable pub string_in_slice : Mem → Slice → String → Mem × ℕ
string_in_slice m sl s =
    let l = if ltb s.len sl.len then s.len else sl.len in ((memcpy m sl.base s.base l).0, l)

unfoldable pub c_nstring_in_slice : Mem → Slice → ℕ → ℕ → Mem × ℕ
unfolding string_in_slice unsafe_string
c_nstring_in_slice m s c_str len = string_in_slice m s (unsafe_string c_str len)

-- The bytes of a list, written one after another from p on.
abbrev pub put : Mem → ℕ → List ℕ → Mem
put m p [] = m
put m p (x ∷ xs) = put (store m p x) (p + 1) xs

-- `c_nstring_in_slice` where the source is a string literal of the given bytes.
unfoldable pub literal_in_slice : Mem → Slice → List ℕ → ℕ → Mem × ℕ
literal_in_slice m s text len =
    let l = if ltb len s.len then len else s.len in (put m s.base (take l text), l)
