-- ===== src/Arena.antt =====
-- lib/cfa/src/arena.c: a bump allocator over one mapping. Offsets and sizes are 64-bit and wrap.
-- `align_forward` is the function of `Pool`, of which arena.c has its own copy.
pub mod Laws
pub mod Bounds
pub mod Resize
pub mod Keeps
use chat_server.Base.{ℕ, ◌+◌, ◌*◌, ◌/◌, ◌%◌, Option, none, some, leb, if◌then◌else◌}
use chat_server.Builtin.Slices.{u64, sub64}
use chat_server.Pool.{align_forward}

pub record Arena : Type 0 where
  pub buf : ℕ
  pub buf_len : ℕ
  pub prev_off : ℕ
  pub curr_off : ℕ

-- `default_alignment`, the size of a pointer
abbrev pub default_alignment : ℕ
default_alignment = 8

abbrev pub page_size : ℕ
page_size = 4096

unfoldable pub arena_init : ℕ → ℕ → Arena
arena_init buf buf_len = record { buf = buf; buf_len = buf_len; prev_off = 0; curr_off = 0 }

unfoldable pub arena_free_all : Arena → Arena
arena_free_all a = record a { curr_off = 0; prev_off = 0 }

-- The end of `arena_alloc_align`, once the offset is known.
pub alloc_at : Arena → ℕ → ℕ → Arena × ℕ
alloc_at a offset size =
    if leb ((offset + size) % u64) a.buf_len
    then (record a { prev_off = offset; curr_off = (offset + size) % u64 }, a.buf + offset)
    else (a, 0)

-- The arena and the address of the memory, which is nil where there is no space; `none` is a failed
-- assert.
unfoldable pub arena_alloc_align : Arena → ℕ → ℕ → Option (Arena × ℕ)
unfolding alloc_at
arena_alloc_align a size align = elim (align_forward (a.buf + a.curr_off) align) [
  | none ↦ none
  | some ptr ↦ some (alloc_at a (sub64 ptr a.buf) size)
]

unfoldable pub arena_alloc : Arena → ℕ → Option (Arena × ℕ)
unfolding arena_alloc_align
arena_alloc a size = arena_alloc_align a size default_alignment

-- The size of the mapping that `arena_create` asks for: whole pages.
unfoldable pub page_aligned : ℕ → ℕ
page_aligned size = (sub64 size 1 / page_size + 1) * page_size % u64

-- The arena over the mapping that `sys_mmap` returned.
unfoldable pub arena_create : ℕ → ℕ → Arena
unfolding arena_init page_aligned
arena_create buf size = arena_init buf (page_aligned size)
