-- ===== src/Arena/Resize.antt =====
-- The temporary arenas of lib/cfa/src/arena.c, and `arena_resize`.
use Prim.Native.Nat.{bit_and}
use chat_server.Base.{
  [], ap₂, ◌∙◌, ◌∷◌, List, ℕ, ◌+◌, ◌%◌, ◌≡◌, refl, ◌&&◌, ◌||◌, Option, none, some, leb, ltb, ◌==◌,
  if◌then◌else◌, Bool-cases, inl, inr,
}
use chat_server.Memory.{Mem}
use chat_server.Builtin.Slices.{u64, sub64}
use chat_server.Builtin.Memcpy.{memmove}
use chat_server.Pool.{align_forward, is_power_of_two}
use chat_server.Arena.{Arena, default_alignment, alloc_at, arena_alloc_align, arena_alloc}

-- The offsets to go back to; the field `arena` is the arena that the functions work on.
pub record TempArena : Type 0 where
  pub prev_off : ℕ
  pub curr_off : ℕ

unfoldable pub temp_arena_create : Arena → TempArena
temp_arena_create a = record { prev_off = a.prev_off; curr_off = a.curr_off }

unfoldable pub temp_arena_recover : TempArena → Arena → Arena
temp_arena_recover temp a = record a { prev_off = temp.prev_off; curr_off = temp.curr_off }

-- `memmove`, which faults where it writes to nil.
unfoldable pub memmove_to : Mem → ℕ → ℕ → ℕ → Option Mem
memmove_to m dst src size =
    if (dst == 0) && ltb 0 size then none else some (memmove m dst src size).0

-- The memory, the arena and the address; `none` is a failed assert or a write to nil.
unfoldable pub arena_resize_align : Mem → Arena → ℕ → ℕ → ℕ → ℕ → Option (Mem × Arena × ℕ)
arena_resize_align m a old_mem old_size new_size align =
    if is_power_of_two align
    then (if (old_mem == 0) || (old_size == 0)
        then elim (arena_alloc_align a new_size align) [
          | none ↦ none
          | some (a1, new_mem) ↦ some (m, a1, new_mem)
        ]
        else (if leb a.buf old_mem && ltb old_mem (a.buf + a.buf_len)
            then (if a.buf + a.prev_off == old_mem
                then some (m, record a { curr_off = (a.prev_off + new_size) % u64 }, old_mem)
                else elim (arena_alloc_align a new_size align) [
                  | none ↦ none
                  | some (a1, new_mem) ↦
                      elim (memmove_to m new_mem old_mem
                        (if ltb old_size new_size then old_size else new_size)) [
                          | none ↦ none
                          | some m1 ↦ some (m1, a1, new_mem)
                        ]
                ])
            else none))
    else none

unfoldable pub arena_resize : Mem → Arena → ℕ → ℕ → ℕ → Option (Mem × Arena × ℕ)
unfolding arena_resize_align
arena_resize m a old_mem old_size new_size =
    arena_resize_align m a old_mem old_size new_size default_alignment

-- Allocations one after another.
abbrev pub arena_allocs : List ℕ → Arena → Option Arena
arena_allocs [] a = some a
arena_allocs (size ∷ sizes) a = elim (arena_alloc a size) [
  | none ↦ none
  | some (a1, mem) ↦ arena_allocs sizes a1
]

alloc_at_keeps :
    (a : Arena) (offset size : ℕ)
    → ((alloc_at a offset size).0.buf ≡ a.buf) × ((alloc_at a offset size).0.buf_len ≡ a.buf_len)
unfolding alloc_at
alloc_at_keeps a offset size = elim (Bool-cases (leb ((offset + size) % u64) a.buf_len)) [
  | inl fits ↦ rw fits (refl, refl)
  | inr full ↦ rw full (refl, refl)
]

-- `arena_alloc` ends, with the arena over the same memory.
arena_alloc_keeps :
    (a : Arena) (size : ℕ)
    → (a1 : Arena) × (mem : ℕ) × (arena_alloc a size ≡ some (a1, mem))
      × (a1.buf ≡ a.buf)
      × (a1.buf_len ≡ a.buf_len)
unfolding arena_alloc arena_alloc_align align_forward is_power_of_two
arena_alloc_keeps a size =
    let p = a.buf + a.curr_off in
    let q = if bit_and p 7 == 0 then p else (p + sub64 8 (bit_and p 7)) % u64 in
    let r = alloc_at a (sub64 q a.buf) size in
    let k = alloc_at_keeps a (sub64 q a.buf) size in (r.0, r.1, refl, k.0, k.1)

-- Whatever is allocated in between, in the arena and whether or not there is space, a temporary
-- arena takes it all back: the arena is as it was.
pub temp_arena_recover-arena_allocs :
    (sizes : List ℕ) (a : Arena)
    → (a1 : Arena) × (arena_allocs sizes a ≡ some a1)
      × (temp_arena_recover (temp_arena_create a) a1 ≡ a)
unfolding temp_arena_recover temp_arena_create
temp_arena_recover-arena_allocs sizes a =
    let (a1, e, same_buf, same_len) = keeps sizes a in
    (a1, e, ap₂ (λ buf buf_len. record a { buf = buf; buf_len = buf_len }) same_buf same_len)
  where
    keeps :
        (sizes : List ℕ) (a : Arena)
        → (a1 : Arena) × (arena_allocs sizes a ≡ some a1)
          × (a1.buf ≡ a.buf)
          × (a1.buf_len ≡ a.buf_len)
    keeps [] a = (a, refl, refl, refl)
    keeps (size ∷ sizes) a =
        let (a1, mem, e, p, q) = arena_alloc_keeps a size in
        let (a2, e2, p2, q2) = keeps sizes a1 in (a2, rw (arena_allocs, e) e2, p2 ∙ p, q2 ∙ q)
