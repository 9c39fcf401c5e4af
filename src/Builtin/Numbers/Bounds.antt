-- ===== src/Builtin/Numbers/Bounds.antt =====
-- `int_in_slice` never leaves its slice.
use chat_server.Base.{
  ℕ, zero, suc, ◌+◌, ◌-◌, ◌/◌, ◌^◌, ◌≤◌, ◌<◌, inl, inr, refl, arith, ◌==◌, Bool-cases,
}
use chat_server.Base.Int.{ℤ, pos, negsuc}
use chat_server.Memory.{Mem, store}
use chat_server.Builtin.Slices.Writes.{Writes, Writes-refl, Writes-store}
use chat_server.Builtin.Slices.{Slice}
use chat_server.Builtin.Numbers.{emit_digits, print_digits, int_in_slice}

emit_digits-Writes :
    (n : ℕ) (m : Mem) (buf bound i rx : ℕ)
    → i ≤ bound
    → Writes buf i bound m (emit_digits n m buf bound i rx)
unfolding emit_digits
emit_digits-Writes zero m buf bound i rx le = Writes-refl buf i bound m le
emit_digits-Writes (suc n) m buf bound i rx le = elim (Bool-cases (bound - i == 0)) [
  | inl full ↦ rw full (Writes-refl buf i bound m le)
  | inr room ↦ rw room (
      Writes-store (buf + i) buf i (i + 1) bound _ m _ refl (ground arith) (ground arith)
        (omega arith) (emit_digits-Writes n _ buf bound (i + 1) (rx / 10) (ground arith)))
]

pub int_in_slice-Writes :
    (m : Mem) (s : Slice) (x : ℤ) → Writes s.base 0 s.cap m (int_in_slice m s x)
unfolding int_in_slice print_digits
int_in_slice-Writes m s (pos x) = elim (Bool-cases (s.cap == 0)) [
  | inl no_room ↦ rw no_room (Writes-refl s.base 0 s.cap m (omega arith))
  | inr room ↦ elim (Bool-cases (x == 0)) [
    | inl nought ↦
        rw (room, nought)
          (Writes-store s.base s.base 0 1 s.cap b'0' m _ (omega arith) (ground arith) (ground arith)
            (omega arith) (Writes-refl s.base 1 s.cap _ (ground arith)))
    | inr some_digits ↦
        rw (room, some_digits) (emit_digits-Writes _ m s.base s.cap 0 _ (omega arith))
  ]
]
int_in_slice-Writes m s (negsuc n) = elim (Bool-cases (s.cap == 0)) [
  | inl no_room ↦ rw no_room (Writes-refl s.base 0 s.cap m (omega arith))
  | inr room ↦ elim (Bool-cases (n + 1 == 2 ^ 63)) [
    | inl least ↦
        rw (room, least) (sign (ground arith) _ (Writes-refl s.base 1 s.cap _ (ground arith)))
    | inr other ↦
        rw (room, other)
          (sign (ground arith) _ (emit_digits-Writes _ _ s.base s.cap 1 _ (ground arith)))
  ]
]
  where
    sign :
        0 < s.cap
        → (r : Mem × ℕ) → Writes s.base 1 s.cap (store m s.base b'-') r
        → Writes s.base 0 s.cap m r
    sign lt r = Writes-store s.base s.base 0 1 s.cap b'-' m r (omega arith) lt lt (omega arith)
