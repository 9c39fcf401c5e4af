-- ===== src/Builtin/Numbers.antt =====
-- `int_in_slice` of lib/cfa/src/builtin.c.
pub mod Decimal
pub mod Bounds
use chat_server.Base.{ℕ, zero, suc, ◌+◌, ◌-◌, ◌*◌, ◌/◌, ◌%◌, ◌^◌, ◌==◌, if◌then◌else◌}
use chat_server.Base.Int.{ℤ, pos, negsuc}
use chat_server.Memory.{Mem, store}
use chat_server.Builtin.Slices.{Slice, u64}

-- An int64 has at most 19 decimal digits.
abbrev pub max_digits : ℕ
max_digits = 19

-- while (x > 0) { rx = (10 * rx) + (x % 10); x /= 10; n_digits++; }
pub reverse_digits : ℕ → ℕ → ℕ → ℕ → ℕ × ℕ
reverse_digits zero x rx n_digits = (rx, n_digits)
reverse_digits (suc left) x rx n_digits =
    let rest = reverse_digits left (x / 10) ((10 * rx + x % 10) % u64) (n_digits + 1) in
    if x == 0 then (rx, n_digits) else rest

-- while (n_digits > 0 && bound - i != 0) { buf[i++] = (rx % 10) + '0'; rx /= 10; n_digits--; }
pub emit_digits : ℕ → Mem → ℕ → ℕ → ℕ → ℕ → Mem × ℕ
emit_digits zero m buf bound i rx = (m, i)
emit_digits (suc n_digits) m buf bound i rx =
    let rest =
      emit_digits n_digits (store m (buf + i) (rx % 10 + b'0')) buf bound (i + 1) (rx / 10) in
    if bound - i == 0 then (m, i) else rest

-- Both loops, for a positive number.
pub print_digits : Mem → Slice → ℕ → ℕ → Mem × ℕ
print_digits m s i x =
    let (rx, n_digits) = reverse_digits max_digits x 0 0 in emit_digits n_digits m s.base s.cap i rx

-- The memory afterwards, and the number of bytes written. The least int64 is its own negation, so
-- no digit is printed.
pub int_in_slice : Mem → Slice → ℤ → Mem × ℕ
unfolding print_digits
int_in_slice m s (pos x) =
    if s.cap == 0 then (m, 0) else if x == 0 then (store m s.base b'0', 1) else print_digits m s 0 x
int_in_slice m s (negsuc n) =
    if s.cap == 0
    then (m, 0)
    else (let m' = store m s.base b'-' in
        if n + 1 == 2 ^ 63 then (m', 1) else print_digits m' s 1 (n + 1))
