-- ===== src/Builtin/Dynamic/Make.antt =====
-- Where the memory of a new slice lies.
use chat_server.Base.{
  ℕ, ◌+◌, ◌*◌, ◌%◌, ◌≤◌, ◌<◌, ◌≡◌, ◌≢◌, inl, inr, refl, Option, none, some, arith, ltb, ◌==◌, false,
  Option-cases,
}
use chat_server.Builtin.Slices.{u64, Slice}
use chat_server.Builtin.Memcpy.{memcpy}
use chat_server.Arena.{Arena, arena_create, arena_init, arena_free_all, page_aligned, arena_alloc}
use chat_server.Arena.Bounds.{IsArena, given, no_space, arena_alloc-Allocates}
use chat_server.Builtin.Dynamic.{max_alloc, Heap, first_arena, larger_arena, make_slice}

-- No aligned address behind all that was given out has the space.
abbrev pub IsFull : Arena → ℕ → Type 0
IsFull a mem = (p : ℕ) → p % 8 ≡ 0 → a.buf + a.curr_off ≤ p → a.buf + a.buf_len < p + mem

-- What `make_slice` of `mem` bytes answers.
pub data Makes (larger : Option ℕ) (h : Heap) (mem len cap : ℕ) (r : Option (Heap × Slice))
    : Type 0 where
  -- memory of the arena, behind all that was given out before
  in_place :
      (a : Arena) (base : ℕ)
      → r ≡ some (record h { global_arena = a }, record { base = base; len = len; cap = cap })
      → IsArena a
      → h.global_arena.buf + h.global_arena.curr_off ≤ base
      → (a.buf ≡ h.global_arena.buf) × (base + mem ≡ a.buf + a.curr_off)
      → base + mem ≤ h.global_arena.buf + h.global_arena.buf_len
      → Makes larger h mem len cap r
  -- no mapping for a larger arena
  unmapped : IsFull h.global_arena mem → larger ≡ none → r ≡ none → Makes larger h mem len cap r
  -- the beginning of a larger arena, to which all that was there has been copied
  over_copy :
      (buf : ℕ) (a : Arena)
      → IsFull h.global_arena mem
      → larger ≡ some buf
      → r
        ≡ some (
          record {
            mem = (memcpy h.mem buf h.global_arena.buf h.global_arena.buf_len).0;
            global_arena = a;
          },
          record { base = buf; len = len; cap = cap },
        )
      → (a.buf ≡ buf) × (a.curr_off ≡ mem)
      → Makes larger h mem len cap r
  -- nil, where the larger arena is too small as well
  nil_slice :
      (buf : ℕ) (h1 : Heap)
      → IsFull h.global_arena mem
      → larger ≡ some buf
      → r ≡ some (h1, record { base = 0; len = len; cap = cap })
      → page_aligned (h.global_arena.buf_len * 2 % u64) < mem
      → Makes larger h mem len cap r

-- The mapping of the larger arena: on a page, and not at the end of the address space.
pub record IsLarger (h : Heap) (mem buf : ℕ) : Type 0 where
  pub on_page : buf % 4096 ≡ 0
  pub ne_nil : buf ≢ 0
  pub ends : buf + page_aligned (h.global_arena.buf_len * 2 % u64) + 8 ≤ u64
  pub small : mem + page_aligned (h.global_arena.buf_len * 2 % u64) + 8 ≤ u64

module _ (mapping larger : Option ℕ) (h : Heap) (type_size len cap mem : ℕ)
    (size : type_size * cap % u64 ≡ mem) (within : ltb max_alloc mem ≡ false)
    (i : IsArena h.global_arena) where
  there : (h.global_arena.buf == 0) ≡ false
  there = ground (arith, i.ne_nil)

  -- The arena that is there has no space.
  make_larger :
      IsFull h.global_arena mem
      → arena_alloc h.global_arena mem ≡ some (h.global_arena, 0)
      → ((buf : ℕ) → larger ≡ some buf → IsLarger h mem buf)
      → Makes larger h mem len cap (make_slice mapping larger h type_size len cap)
  unfolding make_slice first_arena larger_arena arena_create arena_init arena_free_all
  make_larger nowhere full k = elim (Option-cases larger) [
    | inl nothing ↦ rw (size, within, there, full, nothing) (unmapped nowhere refl refl)
    | inr (buf, found) ↦
        let room = page_aligned (h.global_arena.buf_len * 2 % u64) in
        let l = k buf found in
        let b : Arena = record { buf = buf; buf_len = room; prev_off = 0; curr_off = 0 } in
        let j : IsArena b = record { ne_nil = l.ne_nil; ends = l.ends; used = omega arith } in
        elim (arena_alloc-Allocates b mem j l.small) [
          | given a p e j1 same aligned from near ends ↦
              let start : p ≡ buf = omega (arith, aligned, l.on_page, from, near) in
              rw (size, within, there, full, found, e, start)
                (over_copy buf a nowhere refl refl (same.0, omega (arith, ends, start)))
          | no_space e none_there ↦
              rw (size, within, there, full, found, e)
                (nil_slice buf _ nowhere refl refl
                  (omega (arith, none_there buf (omega (arith, l.on_page)) (omega arith))))
        ]
  ]

  -- For a well formed global arena, a size in bytes that is no panic and, with the length of the
  -- arena, below 2 ^ 64, and where the mapping of a larger arena, if there is one, is on a page and
  -- not at the end of the address space: `make_slice` takes the memory behind all that was given
  -- out before; or, where there is no space, the beginning of the larger arena, over the copy of
  -- what was there; or the slice has the address nil, where twice the size of the arena, as whole
  -- pages, is too small as well; or there is no such mapping.
  pub make_slice-Makes :
      mem + h.global_arena.buf_len + 8 ≤ u64
      → ((buf : ℕ) → larger ≡ some buf → IsLarger h mem buf)
      → Makes larger h mem len cap (make_slice mapping larger h type_size len cap)
  unfolding make_slice first_arena
  make_slice-Makes small k = elim (arena_alloc-Allocates h.global_arena mem i small) [
    | given a p e j same aligned from near ends ↦
        let space : (p == 0) ≡ false = ground (arith, i.ne_nil) in
        rw (size, within, there, e, space)
          (in_place a p refl j from (same.0, omega (arith, ends, same.0))
            (omega (arith, j.used, same)))
    | no_space e nowhere ↦ make_larger nowhere e k
  ]
