-- ===== src/Builtin/Text.antt =====
-- C strings in lib/cfa/src/builtin.c: `c_strlen`, `c_string_in_slice`, `c_strncpy` and `memequal`.
-- The counter of `c_strlen` is an `int`: a scan that finds no zero byte before it overflows is
-- `none`.
pub mod Laws
pub mod Bounds
use chat_server.Base.{ℕ, zero, suc, ◌+◌, ◌-◌, ◌^◌, ◌||◌, Option, none, some, ◌==◌, if◌then◌else◌}
use chat_server.Base.Int.{ℤ, pos, negsuc}
use chat_server.Memory.{Mem, store}
use chat_server.Builtin.Slices.{Slice, String, u64, string_in_slice, unsafe_string}

-- while (s[i] != '\0') i++;
strlen_loop : ℕ → Mem → ℕ → ℕ → Option ℕ
strlen_loop zero m s i = none
strlen_loop (suc fuel) m s i =
    let rest = strlen_loop fuel m s (i + 1) in if m (s + i) == 0 then some i else rest

pub c_strlen : Mem → ℕ → Option ℕ
c_strlen m s = if s == 0 then some 0 else strlen_loop (2 ^ 31) m s 0

unfoldable pub unsafe_c_string : Mem → ℕ → Option String
unsafe_c_string m c_str = elim (c_strlen m c_str) [
  | none ↦ none
  | some len ↦ some (unsafe_string c_str len)
]

unfoldable pub c_string_in_slice : Mem → Slice → ℕ → Option (Mem × ℕ)
unfolding unsafe_c_string
c_string_in_slice m s c_str = elim (unsafe_c_string m c_str) [
  | none ↦ none
  | some str ↦ some (string_in_slice m s str)
]

-- for (i = 0; i < len - 1 && src[i] != '\0'; i++) dest[i] = src[i]; with the rounds that are left.
strncpy_loop : ℕ → Mem → ℕ → ℕ → ℕ → Mem × ℕ
strncpy_loop zero m dest src i = (m, i)
strncpy_loop (suc left) m dest src i =
    let rest = strncpy_loop left (store m (dest + i) (m (src + i))) dest src (i + 1) in
    if m (src + i) == 0 then (m, i) else rest

pub c_strncpy : Mem → ℕ → ℕ → ℤ → Mem × ℕ
unfolding strncpy_loop
c_strncpy m dest src (negsuc n) = (m, 0)
c_strncpy m dest src (pos zero) = (m, 0)
c_strncpy m dest src (pos (suc n)) =
    if (dest == 0) || (src == 0)
    then (m, 0)
    else (let (m', i) = strncpy_loop n m dest src 0 in (store m' (dest + i) 0, i))

pub memequal : Mem → ℕ → ℕ → ℕ → ℕ
memequal m dst src zero = 1
memequal m dst src (suc length) =
    let rest = memequal m (dst + 1) (src + 1) length in if m dst == m src then rest else 0
