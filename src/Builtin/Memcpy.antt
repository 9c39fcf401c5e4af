-- ===== src/Builtin/Memcpy.antt =====
-- `memcpy` and `memmove` of lib/cfa/src/builtin.c. A do/while loop is entered with a positive count,
-- and is a recursion on that count.
pub mod Loops
pub mod Moves
use Prim.Native.Nat.{bit_and, bit_or, bit_xor}
use chat_server.Base.{ℕ, zero, suc, ◌+◌, ◌-◌, ◌/◌, ◌||◌, Bool, not, ltb, leb, ◌==◌, if◌then◌else◌}
use chat_server.Memory.{Mem, store, moved}

-- `sizeof(word)` and `wsize - 1`
abbrev pub wsize : ℕ
wsize = 8

abbrev pub wmask : ℕ
wmask = 7

-- The memory and the two pointers that the loops advance.
pub record Cursor : Type 0 where
  pub mem : Mem
  pub dst : ℕ
  pub src : ℕ

-- do { *dst = *src; dst++; src++; t--; } while (t);
pub bytes_up : ℕ → Cursor → Cursor
bytes_up zero c = c
bytes_up (suc t) c =
    bytes_up t (record { mem = store c.mem c.dst (c.mem c.src); dst = c.dst + 1; src = c.src + 1 })

-- do { *(word *) dst = *(word *) src; src += wsize; dst += wsize; t--; } while (t);
pub words_up : ℕ → Cursor → Cursor
words_up zero c = c
words_up (suc t) c =
    words_up t
      (record { mem = moved c.mem c.dst c.src wsize; dst = c.dst + wsize; src = c.src + wsize })

-- do { dst--; src--; *dst = *src; t--; } while (t);
pub bytes_down : ℕ → Cursor → Cursor
bytes_down zero c = c
bytes_down (suc t) c =
    bytes_down t (record {
      mem = store c.mem (c.dst - 1) (c.mem (c.src - 1));
      dst = c.dst - 1;
      src = c.src - 1;
    })

-- do { src -= wsize; dst -= wsize; *(word *) dst = *(word *) src; t--; } while (t);
pub words_down : ℕ → Cursor → Cursor
words_down zero c = c
words_down (suc t) c = words_down t (record {
  mem = moved c.mem (c.dst - wsize) (c.src - wsize) wsize;
  dst = c.dst - wsize;
  src = c.src - wsize;
})

-- Is one of the two addresses off a word boundary?
abbrev pub unaligned : ℕ → ℕ → Bool
unaligned t dst = not (bit_and (bit_or t dst) wmask == 0)

-- Do the low bits of the two addresses differ?
abbrev pub mismatched : ℕ → ℕ → Bool
mismatched t dst = not (bit_and (bit_xor t dst) wmask == 0)

-- How many single bytes the forward copy moves before whole words.
pub head_up : ℕ → ℕ → ℕ → ℕ
head_up src dst length =
    if unaligned src dst
    then (if mismatched src dst || ltb length wsize then length else wsize - bit_and src wmask)
    else 0

pub copy_up : Cursor → ℕ → Cursor
copy_up c length =
    let t = head_up c.src c.dst length in
    let rest = length - t in bytes_up (bit_and rest wmask) (words_up (rest / wsize) (bytes_up t c))

-- How many single bytes the backward copy moves first. Here the pointers stand behind the last byte.
pub head_down : ℕ → ℕ → ℕ → ℕ
head_down src dst length =
    if unaligned src dst
    then (if mismatched src dst || leb length wsize then length else bit_and src wmask)
    else 0

pub copy_down : Cursor → ℕ → Cursor
copy_down c length =
    let t = head_down c.src c.dst length in
    let rest = length - t in
    bytes_down (bit_and rest wmask) (words_down (rest / wsize) (bytes_down t c))

-- The body of `memcpy`, up to its return.
pub copy_body : Mem → ℕ → ℕ → ℕ → Cursor
copy_body m dst src length =
    if (length == 0) || (dst == src)
    then record { mem = m; dst = dst; src = src }
    else if ltb dst src
    then copy_up (record { mem = m; dst = dst; src = src }) length
    else copy_down (record { mem = m; dst = dst + length; src = src + length }) length

-- The memory afterwards, and the pointer that is returned: `dst`, as the loops have left it.
pub memcpy : Mem → ℕ → ℕ → ℕ → Mem × ℕ
unfolding copy_body
memcpy m dst src length = let c = copy_body m dst src length in (c.mem, c.dst)

pub memmove : Mem → ℕ → ℕ → ℕ → Mem × ℕ
memmove m dst src length = memcpy m dst src length
