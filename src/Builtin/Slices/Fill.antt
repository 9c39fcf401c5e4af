-- ===== src/Builtin/Slices/Fill.antt =====
-- Filling a buffer from the left, piece by piece: what each `..._in_slice` adds to it.
use chat_server.Base.{
  ℕ, ◌+◌, ◌-◌, ◌≤◌, ◌<◌, ◌≡◌, refl, ap₂, ◌∙◌, ◌⊎◌, inl, List, [], ◌∷◌, ◌++◌, arith, length, ltb,
  if◌then◌else◌, take-length, false,
}
use chat_server.Memory.{Mem, store, moved, bytes, inside}
use chat_server.Memory.Laws.{length-bytes, bytes-append, bytes-moved_self, bytes_congr}
use chat_server.Builtin.Memcpy.Moves.{memcpy_mem}
use chat_server.Builtin.Slices.{
  u64, sub64, unsafe_slice, slice_left, put, c_nstring_in_slice, literal_in_slice,
}

-- The memories agree but on the n bytes from d on.
abbrev pub SameOutside : ℕ → ℕ → Mem → Mem → Type 0
SameOutside d n m m' = (a : ℕ) → inside d n a ≡ false → m' a ≡ m a

pub put_outside :
    (m : Mem) (p : ℕ) (xs : List ℕ) (a : ℕ) → inside p (length xs) a ≡ false → put m p xs a ≡ m a
put_outside m p [] a h = refl
put_outside m p (x ∷ xs) a h = ground (arith, put_outside (store m p x) (p + 1) xs a)

pub bytes-put : (m : Mem) (p : ℕ) (xs : List ℕ) → bytes (put m p xs) p (length xs) ≡ xs
bytes-put m p [] = refl
bytes-put m p (x ∷ xs) =
    ground (arith, bytes-put (store m p x) (p + 1) xs, put_outside (store m p x) (p + 1) xs p)

-- From m to m' the i bytes in the buffer of the given size at base have become those of `text`.
pub record Filled (base size : ℕ) (m m' : Mem) (i : ℕ) (text : List ℕ) : Type 0 where
  pub fits : i ≤ size
  pub reads : bytes m' base i ≡ text
  pub outside : SameOutside base size m m'

pub Filled-start : (base size : ℕ) (m : Mem) → Filled base size m m 0 []
Filled-start base size m = record { fits = omega arith; reads = refl; outside = λ a h. refl }

pub bytes_outside :
    (base size : ℕ) (m m' : Mem) (p n : ℕ)
    → SameOutside base size m m'
    → (p + n ≤ base) ⊎ (base + size ≤ p)
    → bytes m' p n ≡ bytes m p n
bytes_outside base size m m' p n same apart =
    bytes_congr m' m p p n (λ i lt. same (p + i) (ground arith))

module _ (base size : ℕ) (m m' : Mem) (i : ℕ) (text : List ℕ)
    (f : Filled base size m m' i text) where
  -- The next n bytes have become the given piece.
  pub Filled-more :
      (m'' : Mem) (n : ℕ) (piece : List ℕ)
      → i + n ≤ size
      → SameOutside (base + i) n m' m''
      → bytes m'' (base + i) n ≡ piece
      → Filled base size m m'' (i + n) (text ++ piece)
  Filled-more m'' n piece room same new = record {
    fits = room;
    reads =
        bytes-append m'' base i n
        ∙ ap₂ ◌++◌ (bytes_outside (base + i) n m' m'' base i same (inl (omega arith)) ∙ f.reads)
            new;
    outside = λ a h. same a (ground arith) ∙ f.outside a h;
  }

  -- The space that is left is enough for the piece.
  whole :
      (n : ℕ) → size < u64 → i + n ≤ size → (if ltb n (sub64 size i) then n else sub64 size i) ≡ n
  whole n small room = ground (arith, f.fits)

  -- A piece of memory outside the buffer, of a length that fits, is copied whole.
  pub nstring_fills :
      (src n : ℕ)
      → size < u64
      → i + n ≤ size
      → (src + n ≤ base) ⊎ (base + size ≤ src)
      → let r = c_nstring_in_slice m' (slice_left (unsafe_slice base size) i) src n in
        (r.1 ≡ n) × Filled base size m r.0 (i + n) (text ++ bytes m src n)
  unfolding c_nstring_in_slice slice_left unsafe_slice
  nstring_fills src n small room apart =
      rw (whole n small room, memcpy_mem m' (base + i) src n)
        (
          refl,
          Filled-more (moved m' (base + i) src n) n (bytes m src n) room (λ a h. rw h)
              (bytes-moved_self m' (base + i) src n
                ∙ bytes_outside base size m m' src n f.outside apart),
        )

  pub literal_fills :
      (xs : List ℕ)
      → size < u64
      → i + length xs ≤ size
      → let r = literal_in_slice m' (slice_left (unsafe_slice base size) i) xs (length xs) in
        (r.1 ≡ length xs) × Filled base size m r.0 (i + length xs) (text ++ xs)
  unfolding literal_in_slice slice_left unsafe_slice
  literal_fills xs small room =
      rw (whole (length xs) small room, take-length xs)
        (
          refl,
          Filled-more (put m' (base + i) xs) (length xs) xs room (put_outside m' (base + i) xs)
              (bytes-put m' (base + i) xs),
        )

pub slice_left_zero :
    (base size : ℕ) → size < u64 → slice_left (unsafe_slice base size) 0 ≡ unsafe_slice base size
unfolding slice_left unsafe_slice
slice_left_zero base size small = ground arith

-- The first piece of a message.
pub nstring_starts :
    (base size : ℕ) (m : Mem) (src n : ℕ)
    → size < u64
    → n ≤ size
    → (src + n ≤ base) ⊎ (base + size ≤ src)
    → let r = c_nstring_in_slice m (unsafe_slice base size) src n in
      (r.1 ≡ n) × Filled base size m r.0 n (bytes m src n)
nstring_starts base size m src n small room apart =
    let r =
      nstring_fills base size m m 0 [] (Filled-start base size m) src n small (omega arith) apart in
    let e : 0 + n ≡ n = omega arith in rw (← slice_left_zero base size small) (r.0, rw e at r.1)

pub literal_starts :
    (base size : ℕ) (m : Mem) (xs : List ℕ)
    → size < u64
    → length xs ≤ size
    → let r = literal_in_slice m (unsafe_slice base size) xs (length xs) in
      (r.1 ≡ length xs) × Filled base size m r.0 (length xs) xs
literal_starts base size m xs small room =
    let r = literal_fills base size m m 0 [] (Filled-start base size m) xs small (omega arith) in
    let e : 0 + length xs ≡ length xs = omega arith in
    rw (← slice_left_zero base size small) (r.0, rw e at r.1)

-- What is left of a buffer is a buffer.
pub slice_left_rest :
    (base size i : ℕ)
    → i ≤ size
    → size < u64
    → slice_left (unsafe_slice base size) i ≡ unsafe_slice (base + i) (size - i)
unfolding slice_left unsafe_slice
slice_left_rest base size i le small = let e : sub64 size i ≡ size - i = omega arith in rw e

-- A text in the rest of a buffer is added to the text before it.
pub Filled-nested :
    (base size : ℕ) (m m' m'' : Mem) (i n : ℕ) (text piece : List ℕ)
    → Filled base size m m' i text
    → Filled (base + i) (size - i) m' m'' n piece
    → Filled base size m m'' (i + n) (text ++ piece)
Filled-nested base size m m' m'' i n text piece f g = record {
  fits = omega (arith, f.fits, g.fits);
  reads =
      bytes-append m'' base i n
      ∙ ap₂ ◌++◌
          (bytes_outside (base + i) (size - i) m' m'' base i g.outside (inl (omega arith))
            ∙ f.reads)
          g.reads;
  outside = λ a h. g.outside a (ground (arith, f.fits)) ∙ f.outside a h;
}

-- The text is as long as the part that is filled.
pub Filled-length :
    (base size : ℕ) (m m' : Mem) (i : ℕ) (text : List ℕ)
    → Filled base size m m' i text
    → length text ≡ i
Filled-length base size m m' i text f = rw (← f.reads) (length-bytes m' base i)
