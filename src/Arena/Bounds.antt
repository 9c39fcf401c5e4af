-- ===== src/Arena/Bounds.antt =====
-- What `arena_alloc` gives out lies in the arena, behind all that was given out before.
use chat_server.Base.{
  ℕ, ◌+◌, ◌-◌, ◌%◌, ◌*◌, ◌/◌, ◌≢◌, ◌≤◌, ◌<◌, ◌≡◌, refl, Option, some, arith, leb, Bool-cases, inl,
  inr,
}
use chat_server.Builtin.Slices.{u64, sub64}
use chat_server.Pool.Align.{align_forward_least}
use chat_server.Arena.{Arena, alloc_at, arena_alloc_align, arena_alloc}

-- A buffer that is not at nil and ends before the last addresses, and an offset within it.
pub record IsArena (a : Arena) : Type 0 where
  pub ne_nil : a.buf ≢ 0
  pub ends : a.buf + a.buf_len + 8 ≤ u64
  pub used : a.curr_off ≤ a.buf_len

pub data Allocates (a : Arena) (size : ℕ) (r : Option (Arena × ℕ)) : Type 0 where
  -- an address that is a multiple of 8, at most 7 behind all that was given out
  given :
      (after : Arena) (p : ℕ)
      → r ≡ some (after, p)
      → IsArena after
      → (after.buf ≡ a.buf) × (after.buf_len ≡ a.buf_len)
      → p % 8 ≡ 0
      → a.buf + a.curr_off ≤ p
      → p < a.buf + a.curr_off + 8
      → p + size ≡ a.buf + after.curr_off
      → Allocates a size r
  -- nil: at no such address is there space
  no_space :
      r ≡ some (a, 0)
      → ((p : ℕ) → p % 8 ≡ 0 → a.buf + a.curr_off ≤ p → a.buf + a.buf_len < p + size)
      → Allocates a size r

-- In a well formed arena, and for a size that does not wrap, `arena_alloc` gives out memory that is
-- aligned, lies behind all that was given out before and within the buffer, and leaves a well formed
-- arena; or nil, without a change, where no aligned address has the space.
pub arena_alloc-Allocates :
    (a : Arena) (size : ℕ)
    → IsArena a
    → size + a.buf_len + 8 ≤ u64
    → Allocates a size (arena_alloc a size)
unfolding arena_alloc arena_alloc_align alloc_at
arena_alloc-Allocates a size i small =
    let (p, e, multiple, from, least) =
      align_forward_least 3 (omega arith) (a.buf + a.curr_off) (omega (arith, i.ends, i.used)) in
    let near : p < a.buf + a.curr_off + 8 =
      omega (arith, least ((a.buf + a.curr_off + 7) / 8 * 8) (omega arith) (omega arith)) in
    let place : a.buf + (p - a.buf) ≡ p = omega (arith, from) in
    let offset : sub64 p a.buf ≡ p - a.buf = omega (arith, i.ends, i.used) in
    let sum : (p - a.buf + size) % u64 ≡ p - a.buf + size = omega (arith, i.used) in
    elim (Bool-cases (leb (p - a.buf + size) a.buf_len)) [
      | inl fits ↦
          rw (arena_alloc, arena_alloc_align, e, offset, alloc_at, sum, fits)
            (given (record a { prev_off = p - a.buf; curr_off = p - a.buf + size })
              (a.buf + (p - a.buf)) refl
              (record { ne_nil = i.ne_nil; ends = i.ends; used = ground arith }) (refl, refl)
              (rw place multiple) (omega arith) (omega arith) (omega arith))
      | inr full ↦
          rw (arena_alloc, arena_alloc_align, e, offset, alloc_at, sum, full)
            (no_space refl (λ q h le. let first : p ≤ q = least q h le in ground arith))
    ]
