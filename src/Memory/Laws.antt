-- ===== src/Memory/Laws.antt =====
-- Reading bytes back after a move.
use chat_server.Base.{ℕ, zero, suc, ◌+◌, ◌≤◌, ◌<◌, ◌≡◌, refl, ap, ◌⊎◌, ◌∷◌, ◌++◌, arith, length}
use chat_server.Memory.{Mem, moved, bytes}

pub length-bytes : (m : Mem) (p n : ℕ) → length (bytes m p n) ≡ n
length-bytes m p zero = refl
length-bytes m p (suc n) = omega (arith, length-bytes m (p + 1) n)

-- Bytes that agree address by address are equal.
pub bytes_congr :
    (m m' : Mem) (p p' n : ℕ)
    → ((i : ℕ) → i < n → m (p + i) ≡ m' (p' + i))
    → bytes m p n ≡ bytes m' p' n
bytes_congr m m' p p' zero h = refl
bytes_congr m m' p p' (suc n) h =
    ground (arith, h 0, bytes_congr m m' (p + 1) (p' + 1) n (λ i lt. ground (arith, h (suc i))))

pub bytes-append : (m : Mem) (p k n : ℕ) → bytes m p (k + n) ≡ bytes m p k ++ bytes m (p + k) n
bytes-append m p zero n = ground arith
bytes-append m p (suc k) n =
    let count : suc k + n ≡ suc (k + n) = omega arith in
    let start : p + suc k ≡ p + 1 + k = omega arith in
    rw (count, start) (ap (◌∷◌ (m p)) (bytes-append m (p + 1) k n))

pub bytes-moved_self : (m : Mem) (d s n : ℕ) → bytes (moved m d s n) d n ≡ bytes m s n
bytes-moved_self m d s n = bytes_congr (moved m d s n) m d s n (λ i lt. ground arith)

-- A move leaves the bytes outside its target alone.
pub bytes-moved_apart :
    (m : Mem) (d s n p k : ℕ) → (p + k ≤ d) ⊎ (d + n ≤ p) → bytes (moved m d s n) p k ≡ bytes m p k
bytes-moved_apart m d s n p k h = bytes_congr (moved m d s n) m p p k (λ i lt. ground arith)
