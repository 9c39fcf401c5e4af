-- ===== src/Arena/Keeps.antt =====
-- `arena_resize` with enough space leaves the old memory as it is.
use chat_server.Base.{
  ◌%◌, ◌<◌, ◌⊎◌, ℕ, ◌+◌, ◌*◌, ◌/◌, ◌≤◌, ◌≡◌, inl, inr, refl, true, false, ◌&&◌, some, arith, leb,
  ltb, ◌==◌, if◌then◌else◌, Bool-cases,
}
use chat_server.Memory.{Mem, moved}
use chat_server.Builtin.Slices.{u64}
use chat_server.Builtin.Memcpy.Moves.{memmove_mem}
use chat_server.Pool.{is_power_of_two}
use chat_server.Arena.{Option, Arena, arena_alloc_align, arena_alloc}
use chat_server.Arena.Bounds.{IsArena, given, no_space, arena_alloc-Allocates}
use chat_server.Arena.Resize.{memmove_to, arena_resize_align, arena_resize}

-- Space for the size and its alignment.
abbrev pub HasRoom : Arena → ℕ → Type 0
HasRoom a size = (a.curr_off + size + 8 ≤ a.buf_len) × (size + a.buf_len + 8 ≤ u64)

room-given :
    (a : Arena) (size : ℕ)
    → IsArena a
    → HasRoom a size
    → (a1 : Arena) × (p : ℕ) × (arena_alloc_align a size 8 ≡ some (a1, p))
      × IsArena a1
      × ((a1.buf ≡ a.buf) × (a1.buf_len ≡ a.buf_len))
      × (a.buf + a.curr_off ≤ p)
      × (p + size ≡ a.buf + a1.curr_off)
unfolding arena_alloc
room-given a size i room = elim (arena_alloc-Allocates a size i room.1) [
  | given a1 p e j same aligned from near ends ↦ (a1, p, e, j, same, from, ends)
  | no_space e none_there ↦ absurd (
      let h = none_there ((a.buf + a.curr_off + 7) / 8 * 8) (omega arith) (omega arith) in
      omega (arith, h, room.0))
]

-- What `arena_resize` leaves where there is room: the new memory is at the end of what has been given
-- out, at the old place if this was the last one; and nothing that was given out has changed.
pub record Resizes (m : Mem) (a : Arena) (old_mem new_size : ℕ) (r : Option (Mem × Arena × ℕ))
    : Type 0 where
  pub mem : Mem
  pub arena : Arena
  pub base : ℕ
  pub returns : r ≡ some (mem, arena, base)
  pub well_formed : IsArena arena
  pub same_buffer : (arena.buf ≡ a.buf) × (arena.buf_len ≡ a.buf_len)
  pub placed : ((base ≡ old_mem) × (old_mem ≡ a.buf + a.prev_off)) ⊎ (a.buf + a.curr_off ≤ base)
  pub ends : base + new_size ≡ a.buf + arena.curr_off
  pub kept : (x : ℕ) → x < a.buf + a.curr_off → mem x ≡ m x

pub arena_resize-Resizes :
    (m : Mem) (a : Arena) (old_mem old_size new_size : ℕ)
    → IsArena a
    → HasRoom a new_size
    → a.buf ≤ old_mem
    → old_mem ≤ a.buf + a.curr_off
    → Resizes m a old_mem new_size (arena_resize m a old_mem old_size new_size)
unfolding arena_resize arena_resize_align memmove_to is_power_of_two
arena_resize-Resizes m a old_mem old_size new_size i room from within =
    let (a1, p, e, j, same, behind, ends) = room-given a new_size i room in
    let old : (old_mem == 0) ≡ false = ground (arith, i.ne_nil) in
    let inside : (leb a.buf old_mem && ltb old_mem (a.buf + a.buf_len)) ≡ true =
      ground (arith, room.0) in
    let count = if ltb old_size new_size then old_size else new_size in
    let fine : (p == 0) ≡ false = ground (arith, i.ne_nil, behind) in
    elim (Bool-cases (old_size == 0)) [
      | inl nothing ↦
          rw (old, nothing, e)
            (record {
              mem = m;
              arena = a1;
              base = p;
              returns = refl;
              well_formed = j;
              same_buffer = same;
              placed = inr behind;
              ends = ends;
              kept = λ x lt. refl;
            })
      | inr some_size ↦ elim (Bool-cases (a.buf + a.prev_off == old_mem)) [
        | inl last ↦
            let place : old_mem ≡ a.buf + a.prev_off = ground arith in
            let narrow : (a.prev_off + new_size) % u64 ≡ a.prev_off + new_size =
              omega (arith, place, within, room.0, room.1) in
            rw (old, some_size, inside, last)
              (record {
                mem = m;
                arena = record a { curr_off = (a.prev_off + new_size) % u64 };
                base = old_mem;
                returns = refl;
                well_formed = record {
                  ne_nil = i.ne_nil;
                  ends = i.ends;
                  used = omega (arith, place, within, room.0, narrow);
                };
                same_buffer = (refl, refl);
                placed = inl (refl, place);
                ends = omega (arith, place, narrow);
                kept = λ x lt. refl;
              })
        | inr other ↦
            rw (old, some_size, inside, other, e, fine, memmove_mem m p old_mem count)
              (record {
                mem = moved m p old_mem count;
                arena = a1;
                base = p;
                returns = refl;
                well_formed = j;
                same_buffer = same;
                placed = inr behind;
                ends = ends;
                kept = λ x lt. ground (arith, behind);
              })
      ]
    ]
