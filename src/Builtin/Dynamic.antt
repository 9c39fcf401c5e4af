-- ===== src/Builtin/Dynamic.antt =====
-- The slices of lib/cfa/src/builtin.c that grow: `make_slice`, `grow_slice` and
-- `sl_to_str_new_base`, over one global arena. `none` is the end of the process: the trap of
-- `panic`, a failed assert, a write to nil, or no memory.
pub mod Capacity
pub mod Make
pub mod Grow
use chat_server.Base.{
  ℕ, zero, suc, ◌+◌, ◌-◌, ◌*◌, ◌/◌, ◌%◌, ◌^◌, Bool, true, false, Option, none, some, leb, ltb, ◌==◌,
  if◌then◌else◌,
}
use chat_server.Memory.{Mem}
use chat_server.Builtin.Memcpy.{memcpy}
use chat_server.Builtin.Slices.{u64, Slice, String, get_slice, copy}
use chat_server.Arena.{Arena, arena_create, arena_free_all, arena_alloc}
use chat_server.Arena.Resize.{memmove_to, arena_resize}

-- 1 << 31 is a negative int; as a uint64 it is this.
abbrev pub max_alloc : ℕ
max_alloc = 2 ^ 64 - 2 ^ 31

-- The memory and `global_arena`.
pub record Heap : Type 0 where
  pub mem : Mem
  pub global_arena : Arena

infixl 5 ◌>>=◌
abbrev ◌>>=◌ : {A B : Type 0} → Option A → (A → Option B) → Option B
none >>= f = none
some a >>= f = f a

-- What `sys_mmap` answers becomes an arena.
abbrev created : Option ℕ → ℕ → Option Arena
created none size = none
created (some buf) size = some (arena_create buf size)

-- The arena that is there, or the first one.
first_arena : Option ℕ → Arena → ℕ → Option Arena
first_arena mapping a mem = if a.buf == 0 then created mapping (mem * 2 % u64) else some a

-- An arena of twice the size, into which the old one is copied.
larger_arena : Option ℕ → Mem → Arena → Option (Mem × Arena)
larger_arena mapping m a = do
  new_arena ← created mapping (a.buf_len * 2 % u64)
  some (
    (memcpy m new_arena.buf a.buf a.buf_len).0,
    arena_free_all (record a { buf = new_arena.buf; buf_len = new_arena.buf_len }),
  )

-- The two mappings are those of the first arena and of a larger one.
unfoldable pub make_slice : Option ℕ → Option ℕ → Heap → ℕ → ℕ → ℕ → Option (Heap × Slice)
unfolding first_arena larger_arena
make_slice mapping larger h type_size len cap =
    let mem = type_size * cap % u64 in
    if ltb max_alloc mem then none else (do
      a ← first_arena mapping h.global_arena mem
      (a1, base) ← arena_alloc a mem
      if base == 0
          then (do
            (m2, a2) ← larger_arena larger h.mem a1
            (a3, base3) ← arena_alloc a2 mem
            some (
              record { mem = m2; global_arena = a3 },
              record { base = base3; len = len; cap = cap },
            ))
          else some (record h { global_arena = a1 }, record { base = base; len = len; cap = cap }))

abbrev pub threshold : ℕ
threshold = 256

-- One round of the loop of `new_slice_cap`.
abbrev pub next_cap : ℕ → ℕ
next_cap new_cap = (new_cap + (new_cap + 3 * threshold) % u64 / 4) % u64

-- The loop, with the rounds that are left; `none` is a loop that goes on.
unfoldable pub grow_cap : ℕ → ℕ → ℕ → Option ℕ
grow_cap zero new_len new_cap = none
grow_cap (suc left) new_len new_cap =
    let rest = grow_cap left new_len (next_cap new_cap) in
    if ltb (next_cap new_cap) new_cap
    then some new_len
    else (if leb new_len (next_cap new_cap) then some (next_cap new_cap) else rest)

-- Four rounds more than double the capacity.
unfoldable pub new_slice_cap : ℕ → ℕ → Option ℕ
new_slice_cap new_len old_cap =
    let double_cap = (old_cap + old_cap) % u64 in
    if ltb double_cap new_len
    then some new_len
    else (if ltb old_cap threshold then some double_cap else grow_cap 4 new_len old_cap)

unfoldable pub grow_slice : Heap → Slice → ℕ → ℕ → Option (Heap × Slice)
grow_slice h old_s new_len type_size = do
  new_cap ← new_slice_cap new_len old_s.cap
  let new_cap_mem = new_cap * type_size % u64
  if ltb max_alloc new_cap_mem then none else (do
    (m1, a1, p) ← arena_resize h.mem h.global_arena old_s.base old_s.cap new_cap_mem
    m2 ← memmove_to m1 p old_s.base (old_s.len * type_size % u64)
    some
        (record { mem = m2; global_arena = a1 }, record { base = p; len = new_len; cap = new_cap }))

unfoldable pub sl_to_str_new_base : Heap → Slice → Option (Heap × String)
sl_to_str_new_base h s = do
  (a1, mem) ← arena_alloc h.global_arena s.len
  let ret : String = record { base = mem; len = s.len }
  if mem == 0
      then none
      else some (record { mem = (copy h.mem (get_slice ret) s).0; global_arena = a1 }, ret)
