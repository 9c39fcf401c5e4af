-- ===== src/Fmt.antt =====
-- lib/cfa/src/fmt.c: formatted output by way of an array of 2048 bytes. A format is a string
-- literal, a list of its bytes; the counter j is far below 2 ^ 31.
pub mod Bounds
use chat_server.Base.{
  ℕ, zero, suc, ◌+◌, ◌-◌, ◌*◌, ◌/◌, ◌%◌, ◌^◌, Bool, true, false, ◌&&◌, Option, none, some, List, [],
  ◌∷◌, ltb, ◌==◌, if◌then◌else◌,
}
use chat_server.Base.Int.{ℤ, pos}
use chat_server.Memory.{Mem, store, bytes}
use chat_server.Builtin.Slices.{u64, Slice, String, unsafe_slice}
use chat_server.Builtin.Text.{c_strncpy}
use chat_server.Builtin.Numbers.{int_in_slice}

abbrev pub max_buf : ℕ
max_buf = 2048

-- What `print_string` writes to its stream.
unfoldable pub print_string : Mem → String → List ℕ
print_string m s = bytes m s.base s.len

-- while (num > 0) { rx = (16 * rx) + (num % 16); num /= 16; n_digits++; } for the 16 digits that a
-- uintptr may have
pub reverse_hex : ℕ → ℕ → ℕ → ℕ → ℕ × ℕ
reverse_hex zero num rx n_digits = (rx, n_digits)
reverse_hex (suc left) num rx n_digits =
    let rest = reverse_hex left (num / 16) ((16 * rx + num % 16) % u64) (n_digits + 1) in
    if num == 0 then (rx, n_digits) else rest

-- hex_digits[d]
abbrev pub hex_digit : ℕ → ℕ
hex_digit d = if ltb d 10 then d + b'0' else d - 10 + b'a'

-- while (n_digits > 0 && bound - i != 0) { buf[i++] = hex_digits[(rx % 16)]; rx /= 16; n_digits--; }
pub emit_hex : ℕ → Mem → ℕ → ℕ → ℕ → ℕ → Mem × ℕ
emit_hex zero m buf bound i rx = (m, i)
emit_hex (suc n_digits) m buf bound i rx =
    let rest =
      emit_hex n_digits (store m (buf + i) (hex_digit (rx % 16))) buf bound (i + 1) (rx / 16) in
    if bound - i == 0 then (m, i) else rest

unfoldable pub print_hex : Mem → Slice → ℕ → Mem × ℕ
print_hex m s num =
    if s.cap == 0
    then (m, 0)
    else (let m1 = store m s.base b'0' in
        if s.cap - 1 == 0
        then (m1, 1)
        else (let (rx, n_digits) = reverse_hex 16 num 0 0 in
            emit_hex n_digits (store m1 (s.base + 1) b'x') s.base s.cap 2 rx))

-- An argument of a variadic call.
pub data Arg : Type 0 where
  char_arg : ℕ → Arg
  string_arg : ℕ → Arg
  int_arg : ℤ → Arg
  pointer_arg : ℕ → Arg

-- The conversions that the switch knows.
pub data Conversion : Type 0 where
  as_char : Conversion
  as_string : Conversion
  as_int : Conversion
  as_pointer : Conversion
  percent : Conversion
  unknown : Conversion

abbrev pub conversion : ℕ → Conversion
conversion ch =
    if ch == b'c'
    then as_char
    else (if ch == b's'
        then as_string
        else (if ch == b'd'
            then as_int
            else (if ch == b'p' then as_pointer else (if ch == b'%' then percent else unknown))))

-- One conversion at the index j of buf; `none` is an argument that is missing or of another type.
unfoldable pub convert : Conversion → List Arg → Mem → ℕ → ℕ → Option (Mem × ℕ × List Arg)
convert as_char (char_arg x ∷ args) m buf j = some (store m (buf + j) (x % 256), j + 1, args)
convert as_string (string_arg s ∷ args) m buf j =
    let (m1, n) = c_strncpy m (buf + j) s (pos (max_buf - j)) in some (m1, j + n, args)
convert as_int (int_arg num ∷ args) m buf j =
    let (m1, n) = int_in_slice m (unsafe_slice (buf + j) (max_buf - j)) num in
    some (m1, j + n, args)
convert as_pointer (pointer_arg p ∷ args) m buf j =
    let (m1, n) = print_hex m (unsafe_slice (buf + j) (max_buf - j)) p in some (m1, j + n, args)
convert percent args m buf j = some (store m (buf + j) b'%', j + 1, args)
convert unknown args m buf j = some (m, j, args)
convert c args m buf j = none

-- The loop, over what is left of the format. A % at its end makes it read on behind the format:
-- `none`.
unfoldable pub fmt_loop : List ℕ → List Arg → Mem → ℕ → ℕ → Option (Mem × ℕ)
fmt_loop [] args m buf j = some (m, j)
fmt_loop (ch ∷ []) args m buf j =
    if ltb j max_buf
    then (if ch == b'%' then none else some (store m (buf + j) ch, j + 1))
    else some (m, j)
fmt_loop (ch ∷ next ∷ fmt) args m buf j = elim (ltb j max_buf) [
  | false ↦ some (m, j)
  | true ↦ elim (ch == b'%') [
    | false ↦ fmt_loop (next ∷ fmt) args (store m (buf + j) ch) buf (j + 1)
    | true ↦ elim (convert (conversion next) args m buf j) [
      | none ↦ none
      | some (m1, j1, args1) ↦ fmt_loop fmt args1 m1 buf j1
    ]
  ]
]

-- The memory, the bytes that are written to the stream, and their number.
pub record Printed : Type 0 where
  pub mem : Mem
  pub text : List ℕ
  pub count : ℕ

-- The array of `fmt_fprintf` stands at buf.
unfoldable pub fmt_fprintf : Mem → ℕ → List ℕ → List Arg → Option Printed
fmt_fprintf m buf fmt args = elim (fmt_loop fmt args m buf 0) [
  | none ↦ none
  | some (m1, j) ↦ some (record { mem = m1; text = bytes m1 buf j; count = j })
]
