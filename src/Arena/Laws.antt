-- ===== src/Arena/Laws.antt =====
-- What `arena_alloc` gives out.
use chat_server.Base.{ℕ, ◌+◌, ◌%◌, ◌≤◌, ◌<◌, ◌≡◌, some, arith, leb, if◌then◌else◌}
use chat_server.Builtin.Slices.{u64, sub64}
use chat_server.Pool.Align.{align_forward_aligned}
use chat_server.Arena.{Arena, arena_alloc_align, arena_alloc, page_aligned, page_size}

-- Where the next free address is a multiple of 8 and the new offset does not wrap, `arena_alloc`
-- gives out that address if there is space, and nil, without a change, if there is not.
pub arena_alloc_aligned :
    (a : Arena) (size : ℕ)
    → (a.buf + a.curr_off) % 8 ≡ 0
    → a.curr_off + size < u64
    → arena_alloc a size
      ≡ some (
          if leb (a.curr_off + size) a.buf_len
          then (
            record a { prev_off = a.curr_off; curr_off = a.curr_off + size },
            a.buf + a.curr_off,
          )
          else (a, 0))
unfolding arena_alloc
arena_alloc_aligned a size aligned small =
    let e : sub64 (a.buf + a.curr_off) a.buf ≡ a.curr_off = omega arith in
    let e' : (a.curr_off + size) % u64 ≡ a.curr_off + size = omega arith in
    rw (align_forward_aligned (a.buf + a.curr_off) aligned, arena_alloc, arena_alloc_align, e, e')

-- For a size of at least 1, and where it does not wrap, the mapping of `arena_create` is the least
-- number of whole pages that holds the size.
pub page_aligned_least :
    (size : ℕ)
    → 0 < size
    → size + page_size ≤ u64
    → (page_aligned size % page_size ≡ 0)
      × (size ≤ page_aligned size)
      × (page_aligned size < size + page_size)
unfolding page_aligned
page_aligned_least size pos room = omega arith
