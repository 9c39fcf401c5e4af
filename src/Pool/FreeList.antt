-- ===== src/Pool/FreeList.antt =====
-- The free list of a pool.
use chat_server.Base.{
  ℕ, zero, suc, ◌+◌, ◌*◌, ◌/◌, ◌%◌, ◌≤◌, ◌<◌, ◌≡◌, ◌≢◌, ◌↔◌, ◌∙◌, refl, false, List, [], ◌∷◌, some,
  arith, has, Distinct, length, ◌==◌,
}
use chat_server.Chain.{Chain, Chain-frame}
use chat_server.Builtin.Slices.{u64, sub64}
use chat_server.Pool.Align.{align_forward_aligned}
use chat_server.Pool.{
  FreeNodes, Pool, free_loop, pool_free_all, init_aligned, pool_init, pool_get, pool_put,
}

-- The addresses of the first n chunks, the last one first.
unfoldable pub chunks : ℕ → ℕ → ℕ → List ℕ
chunks buf size zero = []
chunks buf size (suc n) = (buf + n * size) ∷ chunks buf size n

pub length-chunks : (buf size n : ℕ) → length (chunks buf size n) ≡ n
unfolding chunks
length-chunks buf size zero = refl
length-chunks buf size (suc n) = omega (arith, length-chunks buf size n)

pub has-chunks_below :
    (buf size n a : ℕ) → 0 < size → buf + n * size ≤ a → has a (chunks buf size n) ≡ false
unfolding chunks
has-chunks_below buf size zero a h le = refl
has-chunks_below buf size (suc n) a h le =
    ground (arith, has-chunks_below buf size n a h (omega arith))

pub chunks-Distinct : (buf size n : ℕ) → 0 < size → Distinct (chunks buf size n)
unfolding chunks
chunks-Distinct buf size zero h = tt
chunks-Distinct buf size (suc n) h =
    (has-chunks_below buf size n (buf + n * size) h (omega arith), chunks-Distinct buf size n h)

pub has-chunks_above : (buf size n a : ℕ) → a < buf → has a (chunks buf size n) ≡ false
unfolding chunks
has-chunks_above buf size zero a lt = refl
has-chunks_above buf size (suc n) a lt = ground (arith, has-chunks_above buf size n a)

pub chunks-suc : (buf size n : ℕ) → chunks buf size (suc n) ≡ (buf + n * size) ∷ chunks buf size n
unfolding chunks
chunks-suc buf size n = refl

module _ {M : Type 0} (nodes : FreeNodes M) where
  open nodes use {load_next, store_next, load-store}

  -- The free nodes of the pool, in the order in which they are given out.
  abbrev pub Free : M → Pool → List ℕ → Type 0
  Free m p xs = Chain (load_next m) p.head xs

  pub Chain-store_next :
      (m : M) (x q p : ℕ) (xs : List ℕ)
      → Chain (load_next m) p xs
      → has x xs ≡ false
      → Chain (load_next (store_next m x q)) p xs
  Chain-store_next m x q p xs c new =
      Chain-frame (load_next m) (load_next (store_next m x q)) p xs c
        (λ a h. ground (arith, load-store m x q a))

  pub load_self : (m : M) (x q : ℕ) → load_next (store_next m x q) x ≡ q
  load_self m x q = ground (arith, load-store m x q x)

  free_loop-Free :
      (left i : ℕ) (m : M) (p : Pool)
      → 0 < p.chunk_size
      → p.buf ≢ 0
      → Free m p (chunks p.buf p.chunk_size i)
      → let (m', p') = free_loop nodes left i m p in
        Free m' p' (chunks p.buf p.chunk_size (i + left))
        × (p'.buf ≡ p.buf)
        × (p'.buf_len ≡ p.buf_len)
        × (p'.chunk_size ≡ p.chunk_size)
  unfolding free_loop chunks
  free_loop-Free zero i m p pos ne c = let e : i + 0 ≡ i = omega arith in rw e (c, refl, refl, refl)
  free_loop-Free (suc left) i m p pos ne c =
      let size = p.chunk_size in
      let x = p.buf + i * size in
      let e : i + suc left ≡ i + 1 + left = omega arith in
      let e' : i + 1 ≡ suc i = omega arith in
      let step : Free (store_next m x p.head) (record p { head = x }) (chunks p.buf size (i + 1)) =
        rw e' (
          refl,
          omega arith,
          rw (load_self m x p.head) (
              Chain-store_next m x p.head p.head (chunks p.buf size i) c
                (has-chunks_below p.buf size i x pos (omega arith))),
        ) in
      rw e (free_loop-Free left (i + 1) (store_next m x p.head) (record p { head = x }) pos ne step)

  -- `pool_get` gives out the head of the free list.
  pub pool_get-Free :
      (m : M) (p : Pool) (x : ℕ) (xs : List ℕ)
      → Free m p (x ∷ xs)
      → ((pool_get nodes m p).0 ≡ x) × Free m (pool_get nodes m p).1 xs
  unfolding pool_get
  pool_get-Free m p x xs c =
      let ne : (p.head == 0) ≡ false = ground (arith, c.0, c.1) in rw ne (c.0, rw c.0 c.2)

  -- Where xs are the free chunks of a pool, `pool_get` answers nil exactly if xs is empty.
  pub pool_get_nil :
      (m : M) (p : Pool) (xs : List ℕ) → Free m p xs → ((pool_get nodes m p).0 ≡ 0) ↔ (xs ≡ [])
  unfolding pool_get
  pool_get_nil m p [] c = (λ h. refl, λ h. ground arith)
  pool_get_nil m p (x ∷ xs) c = (λ h. ground (arith, c.0, c.1), λ h. ground arith)

  -- `pool_put` puts a chunk that is not free in front.
  pub pool_put-Free :
      (m : M) (p : Pool) (x : ℕ) (xs : List ℕ)
      → Free m p xs
      → x ≢ 0
      → has x xs ≡ false
      → (m' : M) × (p' : Pool) × (pool_put nodes m p x ≡ some (m', p')) × Free m' p' (x ∷ xs)
  unfolding pool_put
  pool_put-Free m p x xs c ne new = (
    store_next m x p.head,
    record p { head = x },
    ground arith,
    (refl, ne, rw (load_self m x p.head) (Chain-store_next m x p.head p.head xs c new)),
  )

  -- The loop keeps whatever no write to one of its chunks changes.
  free_loop_keeps :
      (f : M → ℕ) (left i : ℕ) (m : M) (p : Pool)
      → ((m' : M) (j q : ℕ) → j < i + left → f (store_next m' (p.buf + j * p.chunk_size) q) ≡ f m')
      → f (free_loop nodes left i m p).0 ≡ f m
  unfolding free_loop
  free_loop_keeps f zero i m p keeps = refl
  free_loop_keeps f (suc left) i m p keeps =
      free_loop_keeps f left (i + 1) (store_next m (p.buf + i * p.chunk_size) p.head)
        (record p { head = p.buf + i * p.chunk_size }) (λ m' j q lt. keeps m' j q (omega arith))
      ∙ keeps m i p.head (omega arith)

  -- What `pool_init` leaves of a buffer and a chunk size that are aligned: of the
  -- buf_len / chunk_size chunks of the buffer each is free, and nothing else was written.
  pub record IsFresh (m : M) (buf buf_len size : ℕ) (m' : M) (p : Pool) : Type 0 where
    pub free : Free m' p (chunks buf size (buf_len / size))
    pub same_buf : p.buf ≡ buf
    pub same_len : p.buf_len ≡ buf_len
    pub same_size : p.chunk_size ≡ size
    pub keeps :
        (f : M → ℕ)
        → ((n : M) (j q : ℕ) → j < buf_len / size → f (store_next n (buf + j * size) q) ≡ f n)
        → f m' ≡ f m

  pub init_aligned-IsFresh :
      (m : M) (buf buf_len size : ℕ)
      → buf ≢ 0
      → 8 ≤ size
      → size ≤ buf_len
      → buf_len < u64
      → (m' : M) × (p : Pool) × (init_aligned nodes m buf buf buf_len size ≡ some (m', p))
        × IsFresh m buf buf_len size m' p
  unfolding init_aligned pool_free_all chunks
  init_aligned-IsFresh m buf buf_len size ne small fits lt =
      let start : Pool = record { buf = buf; buf_len = buf_len; chunk_size = size; head = 0 } in
      let r = free_loop nodes (buf_len / size) 0 m start in
      let s = free_loop-Free (buf_len / size) 0 m start (omega arith) ne refl in
      let len : sub64 buf_len (sub64 buf buf) ≡ buf_len = omega arith in
      let e : 0 + buf_len / size ≡ buf_len / size = omega arith in
      (
        r.0,
        r.1,
        rw len (ground arith),
        record {
          free = rw e at s.0;
          same_buf = s.1;
          same_len = s.2;
          same_size = s.3;
          keeps = λ f k.
              free_loop_keeps f (buf_len / size) 0 m start (λ n j q h. k n j q (omega arith));
        },
      )

  -- `pool_init` on a buffer and with a chunk size that are multiples of 8, where at least one chunk
  -- of at least 8 bytes fits: it frees each of the buf_len / chunk_size chunks of the buffer, the
  -- last one first, and writes nothing else.
  pub pool_init-IsFresh :
      (m : M) (buf buf_len size : ℕ)
      → buf ≢ 0
      → buf % 8 ≡ 0
      → size % 8 ≡ 0
      → 8 ≤ size
      → size ≤ buf_len
      → buf_len < u64
      → (m' : M) × (p : Pool) × (pool_init nodes m buf buf_len size 8 ≡ some (m', p))
        × IsFresh m buf buf_len size m' p
  unfolding pool_init
  pool_init-IsFresh m buf buf_len size ne aligned even small fits lt =
      rw (align_forward_aligned buf aligned, pool_init, align_forward_aligned size even)
        (init_aligned-IsFresh m buf buf_len size ne small fits lt)

  -- The guard of `pool_put` joins its two tests by `||`, and one of them always holds: any pointer
  -- but nil, also one outside the buffer, is put on the free list.
  pub pool_put_unguarded :
      (m : M) (p : Pool) (x : ℕ)
      → x ≢ 0
      → pool_put nodes m p x ≡ some (store_next m x p.head, record p { head = x })
  unfolding pool_put
  pool_put_unguarded m p x ne = ground arith

  -- A chunk that is not nil and not free can be put back; it is the next one that is given out, and
  -- then the free list is as before.
  pub pool_get-pool_put :
      (m : M) (p : Pool) (x : ℕ) (xs : List ℕ)
      → Free m p xs
      → x ≢ 0
      → has x xs ≡ false
      → (m' : M) × (p' : Pool) × (pool_put nodes m p x ≡ some (m', p'))
        × ((pool_get nodes m' p').0 ≡ x)
        × Free m' (pool_get nodes m' p').1 xs
  pool_get-pool_put m p x xs c ne new =
      let (m', p', e, free) = pool_put-Free m p x xs c ne new in
      let got = pool_get-Free m' p' x xs free in (m', p', e, got.0, got.1)
