-- ===== src/Assert.antt =====
-- lib/cfa/src/assert.c: what a failed assert prints, before the breakpoint. `none` is a call of
-- `fmt_fprintf` that has no meaning in C. The array of `fmt_fprintf` stands at buf.
use chat_server.Base.{
  ℕ, ◌+◌, ◌<◌, ◌≤◌, ◌≡◌, ◌⊎◌, refl, ◌∙◌, Bool, true, false, Option, none, List, [], ◌∷◌, ◌++◌,
  arith, ◌==◌, ltb, if◌then◌else◌, length,
}
use chat_server.Base.Int.{pos}
use chat_server.Memory.{Mem, store}
use chat_server.Builtin.Text.{c_strncpy}
use chat_server.Builtin.Text.Bounds.{c_strncpy_short}
use chat_server.Fmt.{
  max_buf, Arg, string_arg, int_arg, convert, conversion, unknown, fmt_loop, Printed, fmt_fprintf,
}

-- "' is failed\n"
abbrev after_expr : List ℕ
after_expr = 39 ∷ b' ' ∷ b'i' ∷ b's' ∷ b' ' ∷ b'f' ∷ b'a' ∷ b'i' ∷ b'l' ∷ b'e' ∷ b'd' ∷ 10 ∷ []

-- "d: assertion '"
abbrev after_line : List ℕ
after_line =
    b'd' ∷ b':' ∷ b' ' ∷ b'a' ∷ b's' ∷ b's' ∷ b'e' ∷ b'r' ∷ b't' ∷ b'i' ∷ b'o' ∷ b'n' ∷ b' ' ∷ 39
    ∷ []

-- "%s:%ld: assertion '%s' is failed\n"
abbrev pub failed_fmt : List ℕ
failed_fmt = b'%' ∷ b's' ∷ b':' ∷ b'%' ∷ b'l' ∷ (after_line ++ b'%' ∷ b's' ∷ after_expr)

unfoldable pub assert_fail : Mem → ℕ → ℕ → ℕ → ℕ → Option Printed
assert_fail m buf expr file line =
    fmt_fprintf m buf failed_fmt (string_arg file ∷ int_arg (pos line) ∷ string_arg expr ∷ [])

-- A text without a % is written as it is.
abbrev is_plain : List ℕ → Bool
is_plain [] = true
is_plain (ch ∷ text) = if ch == b'%' then false else is_plain text

fmt_loop-plain :
    (text fmt : List ℕ) (x y : ℕ) (args : List Arg) (m : Mem) (buf j : ℕ)
    → is_plain text ≡ true
    → j + length text ≤ max_buf
    → (m1 : Mem) × (fmt_loop (text ++ x ∷ y ∷ fmt) args m buf j
        ≡ fmt_loop (x ∷ y ∷ fmt) args m1 buf (j + length text))
unfolding fmt_loop
fmt_loop-plain [] fmt x y args m buf j h le =
    let same : j + 0 ≡ j = omega arith in (m, rw same refl)
fmt_loop-plain (ch ∷ []) fmt x y args m buf j h le =
    let other : (ch == b'%') ≡ false = ground (arith, h) in
    let room : ltb j max_buf ≡ true = ground arith in
    (store m (buf + j) ch, rw (fmt_loop, room, other) refl)
fmt_loop-plain (ch ∷ ch' ∷ text) fmt x y args m buf j h le =
    let other : (ch == b'%') ≡ false = ground (arith, h) in
    let room : ltb j max_buf ≡ true = ground arith in
    let (m1, e) =
      fmt_loop-plain (ch' ∷ text) fmt x y args (store m (buf + j) ch) buf (j + 1)
        (ground (arith, h, other)) (omega (arith, le)) in
    let count : j + 1 + length (ch' ∷ text) ≡ j + length (ch ∷ ch' ∷ text) = omega arith in
    (m1, rw (fmt_loop, room, other) (rw (← count) e))

-- A conversion that is not known takes no argument.
fmt_loop-unknown :
    (next : ℕ) (fmt : List ℕ) (args : List Arg) (m : Mem) (buf j : ℕ)
    → conversion next ≡ unknown
    → j < max_buf
    → fmt_loop (b'%' ∷ next ∷ fmt) args m buf j ≡ fmt_loop fmt args m buf j
unfolding fmt_loop convert
fmt_loop-unknown next fmt args m buf j e lt =
    let room : ltb j max_buf ≡ true = ground (arith, lt) in rw (fmt_loop, room, e) refl

-- Behind the file name, the line number meets %s.
misread_line :
    (expr line buf n : ℕ) (m : Mem)
    → n < 2032
    → fmt_loop
        (b':' ∷ b'%' ∷ b'l' ∷ (after_line ++ b'%' ∷ b's' ∷ after_expr))
        (int_arg (pos line) ∷ string_arg expr ∷ [])
        m
        buf
        n
      ≡ none
unfolding fmt_loop convert
misread_line expr line buf n m few =
    let room : ltb (n + 1 + 14) max_buf ≡ true = ground (arith, few) in
    let args = int_arg (pos line) ∷ string_arg expr ∷ [] in
    let tail = after_line ++ b'%' ∷ b's' ∷ after_expr in
    let (m0, colon) =
      fmt_loop-plain (b':' ∷ []) tail b'%' b'l' args m buf n refl (omega (arith, few)) in
    let line_taken = fmt_loop-unknown b'l' tail args m0 buf (n + 1) refl (omega (arith, few)) in
    let (m1, text) =
      fmt_loop-plain after_line after_expr b'%' b's' args m0 buf (n + 1) refl
        (omega (arith, few)) in
    colon ∙ (line_taken ∙ (text ∙ rw (fmt_loop, room) refl))

-- For a file name of fewer than 2032 bytes, whose end is apart from the array of `fmt_fprintf`, a
-- failed assert never gets its message out: its second %s takes the line number, since %ld takes no
-- argument.
pub assert_fail_misread :
    (m : Mem) (buf expr file line k : ℕ)
    → m (file + k) ≡ 0
    → (file + k < buf) ⊎ (buf + 2048 ≤ file + k)
    → k < 2032
    → assert_fail m buf expr file line ≡ none
unfolding assert_fail fmt_fprintf fmt_loop convert
assert_fail_misread m buf expr file line k z apart short =
    let few : (c_strncpy m (buf + 0) file (pos 2048)).1 ≤ k =
      c_strncpy_short m (buf + 0) file 2048 k z (omega (arith, apart)) in
    let r = c_strncpy m (buf + 0) file (pos 2048) in
    rw
      (
        assert_fail,
        fmt_fprintf,
        fmt_loop,
        convert,
        misread_line expr line buf (0 + r.1) r.0 (omega (arith, few, short)),
      )
      refl
