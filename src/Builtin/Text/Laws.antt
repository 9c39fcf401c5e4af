-- ===== src/Builtin/Text/Laws.antt =====
-- What the scans of C strings find and write.
use chat_server.Base.{
  ◌-◌, inr, inl, ◌==◌, Bool-cases, ℕ, zero, suc, ◌+◌, ◌^◌, ◌≤◌, ◌<◌, ◌≡◌, ◌≢◌, ◌↔◌, ◌⊎◌, refl, some,
  arith,
}
use chat_server.Memory.{Mem, bytes}
use chat_server.Builtin.Slices.{Slice, c_nstring_in_slice}
use chat_server.Builtin.Text.{c_string_in_slice, unsafe_c_string, strlen_loop, c_strlen, memequal}

-- The first zero byte from s on is the n-th.
pub record IsCString (m : Mem) (s n : ℕ) : Type 0 where
  pub ends : m (s + n) ≡ 0
  pub runs : (i : ℕ) → i < n → m (s + i) ≢ 0

-- Up to a zero byte there is a first one.
pub first_zero : (m : Mem) (s n : ℕ) → m (s + n) ≡ 0 → (k : ℕ) × (k ≤ n) × IsCString m s k
first_zero m s zero e = (0, omega arith, record { ends = e; runs = λ i lt. absurd (omega arith) })
first_zero m s (suc n) e = elim (Bool-cases (m s == 0)) [
  | inl here ↦ (0, omega arith, record { ends = ground arith; runs = λ i lt. absurd (omega arith) })
  | inr later ↦
      let (k, le, h) = first_zero m (s + 1) n (ground (arith, e)) in
      (
        suc k,
        omega arith,
        record { ends = ground (arith, h.ends); runs = λ i lt. ground (arith, h.runs (i - 1)) },
      )
]

strlen_loop_finds :
    (fuel : ℕ) (m : Mem) (s i n : ℕ)
    → i ≤ n
    → n < i + fuel
    → IsCString m s n
    → strlen_loop fuel m s i ≡ some n
unfolding strlen_loop
strlen_loop_finds zero m s i n le lt h = absurd (omega arith)
strlen_loop_finds (suc fuel) m s i n le lt h =
    ground (arith, h.ends, h.runs i, strlen_loop_finds fuel m s (i + 1) n)

-- `c_strlen` of a pointer that is not nil ends at the first zero byte, if an `int` can count up to
-- it, and answers its offset.
pub c_strlen_finds :
    (m : Mem) (s n : ℕ) → s ≢ 0 → n < 2 ^ 31 → IsCString m s n → c_strlen m s ≡ some n
unfolding c_strlen
c_strlen_finds m s n ne lt h =
    ground (arith, strlen_loop_finds (2 ^ 31) m s 0 n (omega arith) (omega arith) h)

-- `c_string_in_slice` copies up to the zero byte.
pub c_string_in_slice_finds :
    (m : Mem) (s : Slice) (p n : ℕ)
    → p ≢ 0
    → n < 2 ^ 31
    → IsCString m p n
    → c_string_in_slice m s p ≡ some (c_nstring_in_slice m s p n)
unfolding c_nstring_in_slice c_string_in_slice
c_string_in_slice_finds m s p n ne lt h =
    rw (c_string_in_slice, unsafe_c_string, c_strlen_finds m p n ne lt h) refl

-- `memequal` answers 1 exactly where the n bytes are equal, and else 0.
pub memequal-bytes :
    (m : Mem) (dst src n : ℕ)
    → ((memequal m dst src n ≡ 1) ↔ (bytes m dst n ≡ bytes m src n))
      × ((memequal m dst src n ≡ 0) ⊎ (memequal m dst src n ≡ 1))
unfolding memequal
memequal-bytes m dst src zero = ((λ h. refl, λ h. refl), ground arith)
memequal-bytes m dst src (suc n) =
    let ih = memequal-bytes m (dst + 1) (src + 1) n in
    ((λ h. ground (arith, ih.0.0), λ h. ground (arith, ih.0.1)), ground (arith, ih.1))
