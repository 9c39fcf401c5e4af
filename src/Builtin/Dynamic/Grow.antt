-- ===== src/Builtin/Dynamic/Grow.antt =====
-- Where a slice that grows lies, and what it holds.
use chat_server.Base.{
  ℕ, ◌+◌, ◌-◌, ◌*◌, ◌%◌, ◌<◌, ◌≤◌, ◌≡◌, ◌⊎◌, inl, inr, refl, ◌∙◌, Option, some, false, arith, ltb,
  ◌==◌, Bool-cases,
}
use chat_server.Memory.{Mem, moved, bytes, inside}
use chat_server.Memory.Laws.{bytes-moved_self, bytes_congr}
use chat_server.Builtin.Slices.{u64, Slice}
use chat_server.Builtin.Memcpy.Moves.{memmove_mem}
use chat_server.Arena.Bounds.{IsArena}
use chat_server.Arena.Resize.{memmove_to, arena_resize}
use chat_server.Arena.Keeps.{HasRoom, Resizes, arena_resize-Resizes}
use chat_server.Builtin.Dynamic.{max_alloc, Heap, new_slice_cap, grow_slice}

-- What `grow_slice` leaves: a slice of the new length and capacity, whose memory of `size` bytes
-- is at the end of what the arena has given out, at the old place if this was the last one, and
-- behind all else if not; the first n bytes are those of the old slice; and nothing that was given
-- out has changed.
pub record Grows (h : Heap) (old_s : Slice) (new_len cap size n : ℕ) (r : Option (Heap × Slice))
    : Type 0 where
  pub after : Heap
  pub base : ℕ
  pub returns : r ≡ some (after, record { base = base; len = new_len; cap = cap })
  pub well_formed : IsArena after.global_arena
  pub same_buffer :
      (after.global_arena.buf ≡ h.global_arena.buf)
      × (after.global_arena.buf_len ≡ h.global_arena.buf_len)
  pub placed :
      ((base ≡ old_s.base) × (old_s.base ≡ h.global_arena.buf + h.global_arena.prev_off))
      ⊎ (h.global_arena.buf + h.global_arena.curr_off ≤ base)
  pub ends : base + size ≡ h.global_arena.buf + after.global_arena.curr_off
  pub elements : bytes after.mem base n ≡ bytes h.mem old_s.base n
  pub kept : (x : ℕ) → x < h.global_arena.buf + h.global_arena.curr_off → after.mem x ≡ h.mem x

to_itself : (m : Mem) (q n x : ℕ) → moved m q q n x ≡ m x
to_itself m q n x = elim (Bool-cases (inside q n x)) [
  | inl hit ↦ let e : q + (x - q) ≡ x = ground arith in rw (hit, e) refl
  | inr miss ↦ rw miss refl
]

stays_there : (m : Mem) (p q n x : ℕ) → p ≡ q → moved m p q n x ≡ m x
stays_there m p q n x same = rw same (to_itself m q n x)

-- What follows the call of `arena_resize`.
resized-Grows :
    (h : Heap) (old_s : Slice) (new_len type_size cap n : ℕ)
    → IsArena h.global_arena
    → new_slice_cap new_len old_s.cap ≡ some cap
    → old_s.len * type_size % u64 ≡ n
    → ltb max_alloc (cap * type_size % u64) ≡ false
    → h.global_arena.buf ≤ old_s.base
    → old_s.base + n ≤ h.global_arena.buf + h.global_arena.curr_off
    → Resizes h.mem h.global_arena old_s.base
        (cap * type_size % u64)
        (arena_resize h.mem h.global_arena old_s.base old_s.cap (cap * type_size % u64))
    → Grows h old_s new_len cap (cap * type_size % u64) n (grow_slice h old_s new_len type_size)
unfolding grow_slice memmove_to
resized-Grows h old_s new_len type_size cap n i e size small from within g =
    let p = g.base in
    let fine : (p == 0) ≡ false = ground (arith, i.ne_nil, g.placed, from) in
    rw (e, small, g.returns, size, fine, memmove_mem g.mem p old_s.base n)
      (record {
        after = record { mem = moved g.mem p old_s.base n; global_arena = g.arena };
        base = p;
        returns = refl;
        well_formed = g.well_formed;
        same_buffer = g.same_buffer;
        placed = g.placed;
        ends = g.ends;
        elements =
            bytes-moved_self g.mem p old_s.base n
            ∙ bytes_congr g.mem h.mem old_s.base old_s.base n
                (λ j lt. g.kept (old_s.base + j) (omega (arith, within)));
        kept = λ x lt. elim g.placed [
          | inl here ↦ stays_there g.mem p old_s.base n x here.0 ∙ g.kept x lt
          | inr behind ↦ ground (arith, behind, g.kept x lt)
        ];
      })

-- For a slice whose elements lie in what a well formed global arena has given out, for a new
-- capacity whose size in bytes is no panic, and where the arena has room for this size and its
-- alignment, all below 2 ^ 64: `grow_slice` ends, with the new length and the capacity of
-- `new_slice_cap`; the memory for this capacity is at the end of what the arena has given out, at
-- the old place if the slice was the last one, and behind all else if not; it begins with the
-- elements, and nothing that was given out before has changed.
pub grow_slice-Grows :
    (h : Heap) (old_s : Slice) (new_len type_size cap n : ℕ)
    → IsArena h.global_arena
    → new_slice_cap new_len old_s.cap ≡ some cap
    → old_s.len * type_size % u64 ≡ n
    → ltb max_alloc (cap * type_size % u64) ≡ false
    → HasRoom h.global_arena (cap * type_size % u64)
    → h.global_arena.buf ≤ old_s.base
    → old_s.base + n ≤ h.global_arena.buf + h.global_arena.curr_off
    → Grows h old_s new_len cap (cap * type_size % u64) n (grow_slice h old_s new_len type_size)
grow_slice-Grows h old_s new_len type_size cap n i e size small room from within =
    resized-Grows h old_s new_len type_size cap n i e size small from within (
      arena_resize-Resizes h.mem h.global_arena old_s.base old_s.cap (cap * type_size % u64) i room
        from (omega (arith, within)))
