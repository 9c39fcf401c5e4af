-- ===== src/Pool.antt =====
-- lib/cfa/src/pool.c: chunks of one size, the free ones linked through their first bytes. Every
-- function is over any memory that can read and write that link; a failed `assert` is `none`.
pub mod FreeList
pub mod Align
use Prim.Native.Nat.{bit_and}
use chat_server.Base.{
  ℕ, zero, suc, ◌+◌, ◌*◌, ◌/◌, ◌%◌, ◌≡◌, Bool, ◌||◌, not, Option, none, some, ltb, leb, ◌==◌,
  if◌then◌else◌,
}
use chat_server.Builtin.Slices.{u64, sub64}

-- `free_node`: the field `next` of the node at an address.
pub record FreeNodes (M : Type 0) : Type 0 where
  pub load_next : M → ℕ → ℕ
  pub store_next : M → ℕ → ℕ → M
  pub load-store :
      (m : M) (p q a : ℕ) → load_next (store_next m p q) a ≡ (if a == p then q else load_next m a)

pub record Pool : Type 0 where
  pub buf : ℕ
  pub buf_len : ℕ
  pub chunk_size : ℕ
  pub head : ℕ

-- The library has this function and the next one twice, in pool.c and in arena.c.
unfoldable pub is_power_of_two : ℕ → Bool
is_power_of_two n = bit_and n (sub64 n 1) == 0

unfoldable pub align_forward : ℕ → ℕ → Option ℕ
unfolding is_power_of_two
align_forward ptr align =
    let modulo = bit_and ptr (sub64 align 1) in
    if is_power_of_two align
    then some (if modulo == 0 then ptr else (ptr + sub64 align modulo) % u64)
    else none

module _ {M : Type 0} (nodes : FreeNodes M) where
  open nodes use {load_next, store_next}

  -- The loop of `pool_free_all`, with the rounds that are left.
  unfoldable pub free_loop : ℕ → ℕ → M → Pool → M × Pool
  free_loop zero i m p = (m, p)
  free_loop (suc left) i m p =
      let ptr = p.buf + i * p.chunk_size in
      free_loop left (i + 1) (store_next m ptr p.head) (record p { head = ptr })

  unfoldable pub pool_free_all : M → Pool → M × Pool
  unfolding free_loop
  pool_free_all m p = free_loop (p.buf_len / p.chunk_size) 0 m p

  -- What `pool_init` stores once its asserts hold.
  unfoldable pub init_aligned : M → ℕ → ℕ → ℕ → ℕ → Option (M × Pool)
  unfolding pool_free_all
  init_aligned m buf start buf_len chunk_size =
      let buf_len' = sub64 buf_len (sub64 start buf) in
      if leb 8 chunk_size
      then (if leb chunk_size buf_len'
          then some (
              pool_free_all m
                (record { buf = buf; buf_len = buf_len'; chunk_size = chunk_size; head = 0 }))
          else none)
      else none

  unfoldable pub pool_init : M → ℕ → ℕ → ℕ → ℕ → Option (M × Pool)
  pool_init m buf buf_len chunk_size chunk_align = elim (align_forward buf chunk_align) [
    | none ↦ none
    | some start ↦ elim (align_forward chunk_size chunk_align) [
      | none ↦ none
      | some chunk_size' ↦ init_aligned m buf start buf_len chunk_size'
    ]
  ]

  -- The chunk, or nil, and the pool.
  unfoldable pub pool_get : M → Pool → ℕ × Pool
  pool_get m p = if p.head == 0 then (0, p) else (p.head, record p { head = load_next m p.head })

  unfoldable pub pool_put : M → Pool → ℕ → Option (M × Pool)
  pool_put m p ptr =
      let start = p.buf in
      let end = p.buf + p.buf_len in
      if ptr == 0
      then some (m, p)
      else if not (leb start ptr || ltb ptr end)
      then none
      else some (store_next m ptr p.head, record p { head = ptr })
