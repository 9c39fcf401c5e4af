-- ===== src/Fmt/Bounds.antt =====
-- Formatted output never leaves the array of `fmt_fprintf`.
use chat_server.Base.{
  ℕ, zero, suc, ◌+◌, ◌-◌, ◌/◌, ◌%◌, ◌≤◌, ◌<◌, ◌≡◌, inl, inr, refl, Bool, true, false, Option, none,
  some, List, [], ◌∷◌, arith, ltb, ◌==◌, if◌then◌else◌, Bool-cases, Option-cases, length,
}
use chat_server.Memory.{Mem, store}
use chat_server.Memory.Laws.{length-bytes}
use chat_server.Builtin.Slices.{unsafe_slice}
use chat_server.Builtin.Slices.Fill.{SameOutside}
use chat_server.Builtin.Text.Bounds.{c_strncpy-Writes}
use chat_server.Builtin.Numbers.Bounds.{int_in_slice-Writes}
use chat_server.Builtin.Slices.Writes.{Writes, Writes-refl, Writes-store, Writes-rest, Writes-trans}
use chat_server.Fmt.{
  max_buf, reverse_hex, emit_hex, print_hex, Arg, char_arg, string_arg, int_arg, pointer_arg,
  Conversion, as_char, as_string, as_int, as_pointer, percent, unknown, conversion, convert,
  fmt_loop, Printed, fmt_fprintf,
}

emit_hex-Writes :
    (n : ℕ) (m : Mem) (buf bound i rx : ℕ)
    → i ≤ bound
    → Writes buf i bound m (emit_hex n m buf bound i rx)
unfolding emit_hex
emit_hex-Writes zero m buf bound i rx le = Writes-refl buf i bound m le
emit_hex-Writes (suc n) m buf bound i rx le = elim (Bool-cases (bound - i == 0)) [
  | inl full ↦ rw full (Writes-refl buf i bound m le)
  | inr room ↦ rw room (
      Writes-store (buf + i) buf i (i + 1) bound _ m _ refl (ground arith) (ground arith)
        (omega arith) (emit_hex-Writes n _ buf bound (i + 1) (rx / 16) (ground arith)))
]

print_hex-Writes :
    (m : Mem) (buf size num : ℕ) → Writes buf 0 size m (print_hex m (unsafe_slice buf size) num)
unfolding print_hex unsafe_slice
print_hex-Writes m buf size num = elim (Bool-cases (size == 0)) [
  | inl e ↦ rw e (Writes-refl buf 0 size m (omega arith))
  | inr some_room ↦
      let s = Writes-store buf buf 0 1 size b'0' m in
      elim (Bool-cases (size - 1 == 0)) [
        | inl one ↦
            rw (some_room, one)
              (s _ (omega arith) (ground arith) (ground arith) (omega arith)
                (Writes-refl buf 1 size _ (ground arith)))
        | inr more ↦
            rw (some_room, more)
              (s _ (omega arith) (ground arith) (ground arith) (omega arith) (
                Writes-store (buf + 1) buf 1 2 size b'x' _ _ refl (ground arith) (ground arith)
                  (omega arith)
                  (emit_hex-Writes (reverse_hex 16 num 0 0).1 _ buf size 2
                    (reverse_hex 16 num 0 0).0 (ground arith))))
      ]
]

-- The arguments that a conversion leaves, where its own is there.
abbrev pub takes : Conversion → List Arg → Option (List Arg)
takes as_char (char_arg x ∷ args) = some args
takes as_string (string_arg s ∷ args) = some args
takes as_int (int_arg num ∷ args) = some args
takes as_pointer (pointer_arg p ∷ args) = some args
takes percent args = some args
takes unknown args = some args
takes c args = none

-- Do the arguments fit the format?
abbrev pub matches : List ℕ → List Arg → Bool
matches [] args = true
matches (ch ∷ []) args = if ch == b'%' then false else true
matches (ch ∷ next ∷ fmt) args = elim (ch == b'%') [
  | false ↦ matches (next ∷ fmt) args
  | true ↦ elim (takes (conversion next) args) [ none ↦ false | some args1 ↦ matches fmt args1 ]
]

abbrev Converts : Conversion → List Arg → List Arg → Mem → ℕ → ℕ → Type 0
Converts c args args1 m buf j =
    (r : Mem × ℕ) × (convert c args m buf j ≡ some (r.0, r.1, args1)) × Writes buf j max_buf m r

one_byte :
    (m : Mem) (buf j x : ℕ) → j < max_buf → Writes buf j max_buf m (store m (buf + j) x, j + 1)
one_byte m buf j x lt =
    Writes-store (buf + j) buf j (j + 1) max_buf x m _ refl lt (omega arith) (omega arith)
      (Writes-refl buf (j + 1) max_buf _ (omega arith))

convert-Converts :
    (c : Conversion) (args args1 : List Arg) (m : Mem) (buf j : ℕ)
    → takes c args ≡ some args1
    → j < max_buf
    → Converts c args args1 m buf j
unfolding convert unsafe_slice
convert-Converts as_char (char_arg x ∷ args) args1 m buf j e lt =
    (_, ground (arith, e), one_byte m buf j (x % 256) lt)
convert-Converts as_string (string_arg s ∷ args) args1 m buf j e lt = (
  _,
  ground (arith, e),
  Writes-rest buf j max_buf m _ (omega arith) (c_strncpy-Writes m (buf + j) s (max_buf - j)),
)
convert-Converts as_int (int_arg num ∷ args) args1 m buf j e lt = (
  _,
  ground (arith, e),
  Writes-rest buf j max_buf m _ (omega arith)
      (int_in_slice-Writes m (unsafe_slice (buf + j) (max_buf - j)) num),
)
convert-Converts as_pointer (pointer_arg p ∷ args) args1 m buf j e lt = (
  _,
  ground (arith, e),
  Writes-rest buf j max_buf m _ (omega arith) (print_hex-Writes m (buf + j) (max_buf - j) p),
)
convert-Converts percent args args1 m buf j e lt = (_, ground (arith, e), one_byte m buf j b'%' lt)
convert-Converts unknown args args1 m buf j e lt =
    (_, ground (arith, e), Writes-refl buf j max_buf m (omega arith))
convert-Converts c args args1 m buf j e lt = absurd (cc)

-- The loop ends, and writes within the array.
fmt_loop-Writes :
    (fmt : List ℕ) (args : List Arg) (m : Mem) (buf j : ℕ)
    → matches fmt args ≡ true
    → j ≤ max_buf
    → (r : Mem × ℕ) × (fmt_loop fmt args m buf j ≡ some r) × Writes buf j max_buf m r
unfolding fmt_loop
fmt_loop-Writes [] args m buf j h le = (_, refl, Writes-refl buf j max_buf m le)
fmt_loop-Writes (ch ∷ []) args m buf j h le = elim (Bool-cases (ltb j max_buf)) [
  | inr full ↦ rw (fmt_loop, full) (_, refl, Writes-refl buf j max_buf m le)
  | inl room ↦
      let other : (ch == b'%') ≡ false = ground arith in
      rw (fmt_loop, room, other) (_, refl, one_byte m buf j ch (ground arith))
]
fmt_loop-Writes (ch ∷ next ∷ fmt) args m buf j h le = elim (Bool-cases (ltb j max_buf)) [
  | inr full ↦ rw (fmt_loop, full) (_, refl, Writes-refl buf j max_buf m le)
  | inl room ↦
      let lt : j < max_buf = ground arith in
      elim (Bool-cases (ch == b'%')) [
        | inr other ↦
            let (r, e, w) =
              fmt_loop-Writes (next ∷ fmt) args (store m (buf + j) ch) buf (j + 1)
                (rw (matches, other) at h) (omega arith) in
            rw (fmt_loop, room, other)
              (r, e, Writes-trans buf j (j + 1) max_buf m _ r (one_byte m buf j ch lt) w)
        | inl sign ↦ elim (Option-cases (takes (conversion next) args)) [
          | inl missing ↦ let no : false ≡ true = rw (matches, sign, missing) at h in absurd (cc)
          | inr (args1, t) ↦
              let (r1, e1, w1) = convert-Converts (conversion next) args args1 m buf j t lt in
              let (r, e, w) =
                fmt_loop-Writes fmt args1 r1.0 buf r1.1 (rw (matches, sign, t) at h) w1.within in
              rw (fmt_loop, room, sign, e1) (r, e, Writes-trans buf j r1.1 max_buf m _ r w1 w)
        ]
      ]
]

-- Where the arguments fit the format `fmt_fprintf` ends; it writes at most 2048 bytes, those of its
-- array, to the stream, and no byte outside of the array changes.
pub fmt_fprintf_within :
    (m : Mem) (buf : ℕ) (fmt : List ℕ) (args : List Arg)
    → matches fmt args ≡ true
    → (p : Printed) × (fmt_fprintf m buf fmt args ≡ some p)
      × (p.count ≤ max_buf)
      × (length p.text ≡ p.count)
      × SameOutside buf max_buf m p.mem
unfolding fmt_fprintf
fmt_fprintf_within m buf fmt args h =
    let (r, e, w) = fmt_loop-Writes fmt args m buf 0 h (omega arith) in
    rw (fmt_fprintf, e) (_, refl, w.within, length-bytes r.0 buf r.1, w.outside)
