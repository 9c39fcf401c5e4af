-- ===== src/Time/Clock.antt =====
-- `tm_in_slice2` writes the clock time.
use chat_server.Base.{
  subst, ℕ, zero, suc, ◌+◌, ◌/◌, ◌%◌, ◌≤◌, ◌<◌, ◌≡◌, refl, ap, ◌∙◌, false, List, [], ◌∷◌, ◌++◌,
  arith, ltb, ◌==◌, length, length-append, append_assoc, Bool-cases, inl, inr,
}
use chat_server.Base.Int.{pos}
use chat_server.Memory.{Mem, store}
use chat_server.Builtin.Slices.{Slice, u64, unsafe_slice}
use chat_server.Builtin.Slices.Fill.{
  Filled, Filled-start, Filled-more, put_outside, bytes-put, slice_left_zero,
}
use chat_server.Builtin.Numbers.{int_in_slice}
use chat_server.Builtin.Numbers.Decimal.{digits_of, decimal, int_fills}
use chat_server.Time.{Tm, char_at, int_at, padded_at, tm_in_slice2}

digits_of-zero : (fuel : ℕ) → digits_of fuel 0 ≡ []
unfolding digits_of
digits_of-zero zero = refl
digits_of-zero (suc fuel) = refl

digits_of-one : (fuel d : ℕ) → 0 < d → d < 10 → digits_of (suc fuel) d ≡ (b'0' + d) ∷ []
unfolding digits_of
digits_of-one fuel d some lt =
    let none_left : d / 10 ≡ 0 = omega arith in
    let last : d % 10 ≡ d = omega arith in
    let nz : (d == 0) ≡ false = ground arith in rw (nz, none_left, last, digits_of-zero fuel)

digits_of-last :
    (fuel x : ℕ) → 0 < x → digits_of (suc fuel) x ≡ digits_of fuel (x / 10) ++ (b'0' + x % 10) ∷ []
unfolding digits_of
digits_of-last fuel x some = let nz : (x == 0) ≡ false = ground arith in rw nz

digits_of-two :
    (fuel x : ℕ)
    → 10 ≤ x
    → x < 100
    → digits_of (suc (suc fuel)) x ≡ (b'0' + x / 10) ∷ (b'0' + x % 10) ∷ []
digits_of-two fuel x lo hi =
    digits_of-last (suc fuel) x (omega arith)
    ∙ ap (λ ds. ds ++ (b'0' + x % 10) ∷ [])
        (digits_of-one fuel (x / 10) (omega arith) (omega arith))

-- Two digits, the first of which may be 0.
abbrev pub two : ℕ → List ℕ
two x = (b'0' + x / 10) ∷ (b'0' + x % 10) ∷ []

two_small : (x : ℕ) → x < 10 → two x ≡ b'0' ∷ (b'0' + x) ∷ []
two_small x lt =
    let none_left : x / 10 ≡ 0 = omega arith in
    let last : x % 10 ≡ x = omega arith in rw (none_left, last)

decimal-two : (x : ℕ) → 10 ≤ x → x < 100 → decimal x ≡ two x
decimal-two x lo hi =
    let some : (x == 0) ≡ false = ground arith in rw (some, digits_of-two 17 x lo hi)

decimal-one : (x : ℕ) → x < 10 → decimal x ≡ (b'0' + x) ∷ []
decimal-one x hi = elim (Bool-cases (x == 0)) [
  | inl z ↦ rw z (ground arith)
  | inr nz ↦ rw (nz, digits_of-one 18 x (ground arith) hi)
]

pub decimal-length : (x : ℕ) → x < 100 → length (decimal x) ≤ 2
decimal-length x hi = elim (Bool-cases (ltb x 10)) [
  | inl one ↦ rw (decimal-one x (ground arith)) (omega arith)
  | inr more ↦ rw (decimal-two x (ground arith) hi) (omega arith)
]

-- The clock of a `struct tm`: 9:05:07 MSK, 15:13:54 MSK.
abbrev pub minute_text : Tm → List ℕ
minute_text t = (decimal t.tm_hour ++ b':' ∷ []) ++ two t.tm_min

abbrev pub second_text : Tm → List ℕ
second_text t = (minute_text t ++ b':' ∷ []) ++ two t.tm_sec

abbrev pub clock_text : Tm → List ℕ
clock_text t = second_text t ++ b' ' ∷ b'M' ∷ b'S' ∷ b'K' ∷ []

minute_text-length : (t : Tm) → t.tm_hour < 100 → length (minute_text t) ≤ 5
minute_text-length t h =
    let len = decimal-length t.tm_hour h in
    omega (
      arith,
      length-append (decimal t.tm_hour ++ b':' ∷ []) (two t.tm_min),
      length-append (decimal t.tm_hour) (b':' ∷ []),
    )

second_text-length : (t : Tm) → t.tm_hour < 100 → length (second_text t) ≤ 8
second_text-length t h =
    let len = minute_text-length t h in
    omega (
      arith,
      length-append (minute_text t ++ b':' ∷ []) (two t.tm_sec),
      length-append (minute_text t) (b':' ∷ []),
    )

pub clock_text-length : (t : Tm) → t.tm_hour < 24 → length (clock_text t) ≤ 12
clock_text-length t h = omega (
  arith,
  second_text-length t (omega arith),
  length-append (second_text t) (b' ' ∷ b'M' ∷ b'S' ∷ b'K' ∷ []),
)

append_four :
    (xs : List ℕ) (a b c d : ℕ)
    → (((xs ++ a ∷ []) ++ b ∷ []) ++ c ∷ []) ++ d ∷ [] ≡ xs ++ a ∷ b ∷ c ∷ d ∷ []
append_four [] a b c d = refl
append_four (x ∷ xs) a b c d = ap (λ ys. x ∷ ys) (append_four xs a b c d)

module _ (base size : ℕ) (m : Mem) (small : size < u64) where
  -- The state of a printer: so much text, all of it counted.
  abbrev pub Printed : List ℕ → Mem × ℕ → Type 0
  Printed text (m', n) = (n ≡ length text) × Filled base size m m' n text

  abbrev pub s : Slice
  s = unsafe_slice base size

  pub char_prints :
      (c : ℕ) (text : List ℕ) (r : Mem × ℕ)
      → Printed text r
      → length text < size
      → Printed (text ++ c ∷ []) (char_at s c r)
  unfolding unsafe_slice
  char_prints c text (m', n) (count, f) room = (
    omega (arith, length-append text (c ∷ [])),
    Filled-more base size m m' n text f (store m' (base + n) c) 1 (c ∷ []) (omega arith)
        (put_outside m' (base + n) (c ∷ [])) (bytes-put m' (base + n) (c ∷ [])),
  )

  int_prints :
      (x : ℕ) (text : List ℕ) (r : Mem × ℕ)
      → x < 100
      → Printed text r
      → length text + 2 ≤ size
      → Printed (text ++ decimal x) (int_at s x r)
  int_prints x text (m', n) lt (count, f) room =
      let p =
        int_fills base size m m' n text f x (omega arith) small
          (omega (arith, decimal-length x lt)) in
      rw p.0 (omega (arith, length-append text (decimal x)), p.1)

  pub padded_prints :
      (x : ℕ) (text : List ℕ) (r : Mem × ℕ)
      → x < 100
      → Printed text r
      → length text + 3 ≤ size
      → Printed (text ++ two x) (padded_at s x r)
  padded_prints x text r lt p room = elim (Bool-cases (ltb x 10)) [
    | inl one ↦
        let zeroed = char_prints b'0' text r p (omega arith) in
        let both =
          int_prints x (text ++ b'0' ∷ []) (char_at s b'0' r) lt zeroed
            (omega (arith, length-append text (b'0' ∷ []))) in
        rw
          (
            one,
            two_small x (ground arith),
            ← append_assoc text (b'0' ∷ []) ((b'0' + x) ∷ []),
            ← decimal-one x (ground arith),
          )
          both
    | inr more ↦
        rw (more, ← decimal-two x (ground arith) lt) (int_prints x text r lt p (omega arith))
  ]

  minute_prints :
      (t : Tm) (r : Mem × ℕ)
      → t.tm_hour < 100
      → t.tm_min < 100
      → 12 ≤ size
      → Printed (decimal t.tm_hour) r
      → Printed (minute_text t) (padded_at s t.tm_min (char_at s b':' r))
  minute_prints t r h mi room p =
      let len = decimal-length t.tm_hour h in
      padded_prints t.tm_min (decimal t.tm_hour ++ b':' ∷ []) (char_at s b':' r) mi
        (char_prints b':' (decimal t.tm_hour) r p (omega arith))
        (omega (arith, length-append (decimal t.tm_hour) (b':' ∷ [])))

  second_prints :
      (t : Tm) (r : Mem × ℕ)
      → t.tm_hour < 100
      → t.tm_sec < 100
      → 12 ≤ size
      → Printed (minute_text t) r
      → Printed (second_text t) (padded_at s t.tm_sec (char_at s b':' r))
  second_prints t r h sec room p =
      let len = minute_text-length t h in
      padded_prints t.tm_sec (minute_text t ++ b':' ∷ []) (char_at s b':' r) sec
        (char_prints b':' (minute_text t) r p (omega arith))
        (omega (arith, length-append (minute_text t) (b':' ∷ [])))

  zone_prints :
      (text : List ℕ) (r : Mem × ℕ)
      → Printed text r
      → length text + 4 ≤ size
      → Printed
          (text ++ b' ' ∷ b'M' ∷ b'S' ∷ b'K' ∷ [])
          (char_at s b'K' (char_at s b'S' (char_at s b'M' (char_at s b' ' r))))
  zone_prints text r p room =
      let t1 = text ++ b' ' ∷ [] in
      let t2 = t1 ++ b'M' ∷ [] in
      let t3 = t2 ++ b'S' ∷ [] in
      let l1 : length t1 ≡ length text + 1 = length-append text (b' ' ∷ []) in
      let l2 : length t2 ≡ length t1 + 1 = length-append t1 (b'M' ∷ []) in
      let l3 : length t3 ≡ length t2 + 1 = length-append t2 (b'S' ∷ []) in
      let p1 = char_prints b' ' text r p (omega arith) in
      let p2 = char_prints b'M' t1 (char_at s b' ' r) p1 (omega arith) in
      let p3 = char_prints b'S' t2 (char_at s b'M' (char_at s b' ' r)) p2 (omega arith) in
      let p4 =
        char_prints b'K' t3 (char_at s b'S' (char_at s b'M' (char_at s b' ' r))) p3 (omega arith) in
      rw (← append_four text b' ' b'M' b'S' b'K') p4

  hour_prints : (x : ℕ) → x < 100 → 12 ≤ size → Printed (decimal x) (int_in_slice m s (pos x))
  hour_prints x h room =
      let len = decimal-length x h in
      let p =
        int_fills base size m m 0 [] (Filled-start base size m) x (omega arith) small
          (omega arith) in
      let e : 0 + length (decimal x) ≡ length (decimal x) = omega arith in
      subst (λ q. Printed (decimal x) (int_in_slice m q (pos x))) (slice_left_zero base size small)
        (p.0, rw p.0 (rw e at p.1))

  -- In a buffer of at least 12 bytes the clock time of a day is written whole: the hour in one or
  -- two digits, the minute and the second in two, and the zone. The result is the number of bytes
  -- written, and no byte outside them has changed.
  pub tm_in_slice2-clock_text :
      (t : Tm)
      → 12 ≤ size
      → t.tm_hour < 24
      → t.tm_min < 60
      → t.tm_sec < 60
      → ((tm_in_slice2 m (unsafe_slice base size) t).1 ≡ length (clock_text t))
        × Filled base size m
            (tm_in_slice2 m (unsafe_slice base size) t).0
            (tm_in_slice2 m (unsafe_slice base size) t).1
            (clock_text t)
  unfolding tm_in_slice2 unsafe_slice
  tm_in_slice2-clock_text t room h mi sec =
      let r1 = int_in_slice m s (pos t.tm_hour) in
      let r2 = padded_at s t.tm_min (char_at s b':' r1) in
      let r3 = padded_at s t.tm_sec (char_at s b':' r2) in
      let p1 = hour_prints t.tm_hour (omega arith) room in
      let p2 = minute_prints t r1 (omega arith) (omega arith) room p1 in
      let p3 = second_prints t r2 (omega arith) (omega arith) room p2 in
      zone_prints (second_text t) r3 p3 (omega (arith, second_text-length t (omega arith)))
