-- ===== src/Builtin/Memcpy/Moves.antt =====
-- `memcpy` moves the bytes as if through a copy, whatever the alignment and the overlap.
use Prim.Native.Nat.{bit_and}
use chat_server.Base.{
  ℕ, ◌+◌, ◌-◌, ◌*◌, ◌/◌, ◌≤◌, ◌<◌, ◌≡◌, refl, inl, inr, arith, true, ltb, if◌then◌else◌, Bool-cases,
  fun_ext,
}
use chat_server.Base.Bits.{bit_and_seven, low_or, low_xor}
use chat_server.Memory.{Mem, moved}
use chat_server.Builtin.Memcpy.{
  Cursor, bytes_up, words_up, bytes_down, words_down, head_up, head_down, unaligned, copy_up,
  copy_down, memcpy, memmove,
}
use chat_server.Builtin.Memcpy.Loops.{
  Up, Down, Up-trans, Down-trans, bytes_up-Up, words_up-Up, bytes_down-Down, words_down-Down,
}

pub head_up-le : (src dst n : ℕ) → head_up src dst n ≤ n
unfolding head_up
head_up-le src dst n = ground (arith, bit_and_seven src)

pub head_down-le : (src dst n : ℕ) → head_down src dst n ≤ n
unfolding head_down
head_down-le src dst n = ground (arith, bit_and_seven src)

-- The do/while loop over the first bytes is entered with a positive count.
pub head_up-pos : (src dst n : ℕ) → 0 < n → unaligned src dst ≡ true → 0 < head_up src dst n
unfolding head_up
head_up-pos src dst n h u = ground (arith, bit_and_seven src)

pub head_down-pos : (src dst n : ℕ) → 0 < n → unaligned src dst ≡ true → 0 < head_down src dst n
unfolding head_down
head_down-pos src dst n h u = ground (arith, bit_and_seven src, low_or src dst, low_xor src dst)

copy_up-Up : (c : Cursor) (n : ℕ) → c.dst ≤ c.src → Up n c (copy_up c n)
unfolding copy_up
copy_up-Up c n h =
    let t = head_up c.src c.dst n in
    let le = head_up-le c.src c.dst n in
    let c' = bytes_up t c in
    let first = bytes_up-Up t c h in
    let c'' = words_up ((n - t) / 8) c' in
    let second = words_up-Up ((n - t) / 8) c' (omega (arith, first.dst_is, first.src_is)) in
    let third =
      bytes_up-Up (bit_and (n - t) 7) c''
        (omega (arith, first.dst_is, first.src_is, second.dst_is, second.src_is)) in
    Up-trans (t + (n - t) / 8 * 8) (bit_and (n - t) 7) n
      (Up-trans t ((n - t) / 8 * 8) (t + (n - t) / 8 * 8) first second refl h) third
      (omega (arith, bit_and_seven (n - t))) h

copy_down-Down : (c : Cursor) (n : ℕ) → c.src ≤ c.dst → n ≤ c.src → Down n c (copy_down c n)
unfolding copy_down
copy_down-Down c n h k =
    let t = head_down c.src c.dst n in
    let le = head_down-le c.src c.dst n in
    let c' = bytes_down t c in
    let first = bytes_down-Down t c h (omega arith) in
    let c'' = words_down ((n - t) / 8) c' in
    let second =
      words_down-Down ((n - t) / 8) c' (omega (arith, first.dst_is, first.src_is))
        (omega (arith, first.src_is)) in
    let third =
      bytes_down-Down (bit_and (n - t) 7) c''
        (omega (arith, first.dst_is, first.src_is, second.dst_is, second.src_is))
        (omega (arith, first.src_is, second.src_is, bit_and_seven (n - t))) in
    Down-trans (t + (n - t) / 8 * 8) (bit_and (n - t) 7) n
      (Down-trans t ((n - t) / 8 * 8) (t + (n - t) / 8 * 8) first second refl h) third
      (omega (arith, bit_and_seven (n - t))) h

module _ (m : Mem) (dst src n : ℕ) where
  abbrev front : Cursor
  front = record { mem = m; dst = dst; src = src }

  abbrev back : Cursor
  back = record { mem = m; dst = dst + n; src = src + n }

  -- After `memcpy` each byte of the target is the byte that stood at its place in the source before
  -- the call, and every other byte is unchanged; source and target may overlap either way.
  pub memcpy-moved : (a : ℕ) → (memcpy m dst src n).0 a ≡ moved m dst src n a
  unfolding memcpy
  memcpy-moved a = elim (Bool-cases (ltb dst src)) [
    | inl up ↦ ground (arith, (copy_up-Up front n (ground arith)).mem_is a)
    | inr down ↦
        let r = copy_down-Down back n (ground arith) (omega arith) in
        ground (arith, r.mem_is a, r.dst_is, r.src_is)
  ]

  -- Where `memcpy` moves at least one byte, it returns its first argument if it copies backward, and
  -- the end of the target if it copies forward.
  pub memcpy_returns : 0 < n → (memcpy m dst src n).1 ≡ (if ltb dst src then dst + n else dst)
  unfolding memcpy
  memcpy_returns h = elim (Bool-cases (ltb dst src)) [
    | inl up ↦ ground (arith, (copy_up-Up front n (ground arith)).dst_is)
    | inr down ↦
        let r = copy_down-Down back n (ground arith) (omega arith) in ground (arith, r.dst_is)
  ]

pub memcpy_mem : (m : Mem) (dst src n : ℕ) → (memcpy m dst src n).0 ≡ moved m dst src n
memcpy_mem m dst src n = fun_ext (memcpy-moved m dst src n)

pub memmove_mem : (m : Mem) (dst src n : ℕ) → (memmove m dst src n).0 ≡ moved m dst src n
unfolding memmove
memmove_mem m dst src n = memcpy_mem m dst src n
