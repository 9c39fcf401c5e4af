-- ===== src/Examples/Resources.antt =====
-- System calls, circular buffers, arenas, growing slices and formatted output at concrete inputs.
use chat_server.Base.{
  ℕ, ◌-◌, ◌^◌, ◌≤◌, ◌≡◌, refl, inl, none, subst, true, Option, some, none, List, [], ◌∷◌, arith,
  length,
}
use chat_server.Base.Int.{pos}
use chat_server.Memory.{Mem}
use chat_server.Builtin.Slices.Fill.{SameOutside}
use chat_server.Builtin.Dynamic.{Heap, make_slice, grow_slice, grow_cap, new_slice_cap}
use chat_server.Builtin.Dynamic.Grow.{Grows, grow_slice-Grows}
use chat_server.Builtin.Dynamic.Make.{IsLarger, Makes, make_slice-Makes}
use chat_server.Builtin.Dynamic.Capacity.{new_slice_cap_enough}
use chat_server.Arena.{Arena, page_aligned, arena_alloc}
use chat_server.Arena.Bounds.{IsArena, Allocates, arena_alloc-Allocates}
use chat_server.Assert.{assert_fail, assert_fail_misread}
use chat_server.Arena.Resize.{
  temp_arena_create, temp_arena_recover, arena_allocs, temp_arena_recover-arena_allocs,
}
use chat_server.Builtin.Slices.{Slice}
use chat_server.Buffer.{CircularBuffer, unconsumed_len, consume}
use chat_server.Buffer.Laws.{IsBuffer, consuming, Holds, step-Holds}
use chat_server.System.Errors.{Error}
use chat_server.System.{Kernel, sys_read}
use chat_server.Chat.Read.Answers.{answer_of, sys_read-answer_of}
use chat_server.Fmt.{Printed, char_arg, int_arg, pointer_arg, fmt_fprintf}
use chat_server.Fmt.Bounds.{fmt_fprintf_within}

abbrev zeros : Mem
zeros a = 0

-- A kernel that answers EAGAIN to every call.
abbrev busy : Kernel (Unit {0})
busy k trap args = (tt, 2 ^ 64 - 11)

sys_read-answer_of_example :
    (e : Option Error) × ((sys_read busy tt 5 2000 32 true).1 ≡ some e)
    × (answer_of e [] ≡ none)
    × ((sys_read busy tt 5 2000 32 true).2 ≡ 2 ^ 64 - 1)
sys_read-answer_of_example = sys_read-answer_of busy tt 5 2000 32 [] (omega arith) (omega arith)

-- 1000 of 1500 bytes are left to consume, in a buffer of twice 4096.
abbrev half_read : CircularBuffer
half_read = record { buf = 65536; len = 8192; head = 3500; tail = 4500 }

half_read-IsBuffer : IsBuffer half_read
half_read-IsBuffer = record {
  small = omega arith;
  ordered = omega arith;
  room = omega arith;
  first_half = omega arith;
}

half_read-Fits : 700 ≤ unconsumed_len half_read
unfolding unconsumed_len
half_read-Fits = omega arith

step-Holds_example : Holds (consume half_read 700) 4096 (unconsumed_len half_read - 700)
step-Holds_example = step-Holds (consuming 700) half_read half_read-IsBuffer half_read-Fits

new_slice_cap_enough_example : (cap : ℕ) × (new_slice_cap 1900 1000 ≡ some cap) × (1900 ≤ cap)
new_slice_cap_enough_example = new_slice_cap_enough 1900 1000 (omega arith)

capacity_1900 : new_slice_cap 1900 1000 ≡ some 1994
unfolding new_slice_cap grow_cap
capacity_1900 = refl

abbrev page : Arena
page = record { buf = 8192; buf_len = 4096; prev_off = 16; curr_off = 50 }

temp_arena_recover-arena_allocs_example :
    (a1 : Arena) × (arena_allocs (100 ∷ 5000 ∷ []) page ≡ some a1)
    × (temp_arena_recover (temp_arena_create page) a1 ≡ page)
temp_arena_recover-arena_allocs_example = temp_arena_recover-arena_allocs (100 ∷ 5000 ∷ []) page

-- "%d%c%p"
abbrev format : List ℕ
format = b'%' ∷ b'd' ∷ b'%' ∷ b'c' ∷ b'%' ∷ b'p' ∷ []

fmt_fprintf_within_example :
    (p : Printed) × (fmt_fprintf zeros 4096 format
        (int_arg (pos 42) ∷ char_arg 33 ∷ pointer_arg 255 ∷ [])
      ≡ some p)
    × (p.count ≤ 2048)
    × (length p.text ≡ p.count)
    × SameOutside 4096 2048 zeros p.mem
fmt_fprintf_within_example =
    fmt_fprintf_within zeros 4096 format (int_arg (pos 42) ∷ char_arg 33 ∷ pointer_arg 255 ∷ [])
      refl

page-IsArena : IsArena page
page-IsArena = record { ne_nil = omega arith; ends = omega arith; used = omega arith }

arena_alloc-Allocates_example : Allocates page 1000 (arena_alloc page 1000)
arena_alloc-Allocates_example = arena_alloc-Allocates page 1000 page-IsArena (omega arith)

assert_fail_misread_example : assert_fail zeros 4096 2000 3000 17 ≡ none
assert_fail_misread_example =
    assert_fail_misread zeros 4096 2000 3000 17 0 refl (inl (omega arith)) (omega arith)

-- 8000 bytes do not fit into the page.
abbrev heap : Heap
heap = record { mem = zeros; global_arena = page }

heap_mapping : (buf : ℕ) → some 65536 ≡ some buf → IsLarger heap 8000 buf
unfolding page_aligned
heap_mapping buf e =
    let at : 65536 ≡ buf = cc e in
    subst (λ x. IsLarger heap 8000 x) at
      (record { on_page = refl; ne_nil = omega arith; ends = omega arith; small = omega arith })

make_slice-Makes_example :
    Makes (some 65536) heap 8000 100 1000 (make_slice none (some 65536) heap 8 100 1000)
make_slice-Makes_example =
    make_slice-Makes none (some 65536) heap 8 100 1000 8000 refl refl page-IsArena (omega arith)
      heap_mapping

abbrev numbers : Slice
numbers = record { base = 8200; len = 5; cap = 8 }

capacity_16 : new_slice_cap 6 8 ≡ some 16
unfolding new_slice_cap
capacity_16 = refl

grow_slice-Grows_example : Grows heap numbers 6 16 128 40 (grow_slice heap numbers 6 8)
grow_slice-Grows_example =
    grow_slice-Grows heap numbers 6 8 16 40 page-IsArena capacity_16 refl refl
      (omega arith, omega arith) (omega arith) (omega arith)
