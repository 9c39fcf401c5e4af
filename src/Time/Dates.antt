-- ===== src/Time/Dates.antt =====
-- `tm_in_slice` and `tm_rfc822_in_slice` write a date and its time.
use chat_server.Base.{
  ℕ, zero, suc, ◌+◌, ◌/◌, ◌%◌, ◌^◌, ◌≤◌, ◌<◌, ◌≡◌, refl, none, some, List, [], ◌∷◌, ◌++◌, arith,
  length, length-append,
}
use native.Mathlib.Nat.{pow-suc}
use chat_server.Memory.{Mem}
use chat_server.Builtin.Slices.{u64, unsafe_slice, literal_in_slice}
use chat_server.Builtin.Slices.Fill.{Filled, Filled-start, literal_fills, literal_starts}
use chat_server.Builtin.Numbers.{max_digits}
use chat_server.Builtin.Numbers.Decimal.{digits_of, decimal, int_fills}
use chat_server.Time.{Tm, char_at, int_at, padded_at, tm_in_slice}
use chat_server.Time.Calendar.{IsDate}
use chat_server.Time.Clock.{two, Printed, char_prints, padded_prints}
use chat_server.Time.Rfc822.{wdays, months, name_at, text_at, tm_rfc822_in_slice}

-- Pieces of text, one behind the other.
abbrev joined_to : List ℕ → List (List ℕ) → List ℕ
joined_to text [] = text
joined_to text (piece ∷ pieces) = joined_to (text ++ piece) pieces

abbrev pub joined : List (List ℕ) → List ℕ
joined = joined_to []

-- 08.10.2023 15:13:54 MSK
abbrev pub date_text : Tm → List ℕ
date_text t = joined (
    two t.tm_mday
    ∷ (b'.' ∷ [])
    ∷ two (t.tm_mon + 1)
    ∷ (b'.' ∷ [])
    ∷ decimal (t.tm_year + 1900)
    ∷ (b' ' ∷ [])
    ∷ two t.tm_hour
    ∷ (b':' ∷ [])
    ∷ two t.tm_min
    ∷ (b':' ∷ [])
    ∷ two t.tm_sec
    ∷ (b' ' ∷ [])
    ∷ (b'M' ∷ [])
    ∷ (b'S' ∷ [])
    ∷ (b'K' ∷ [])
    ∷ [])

-- The name of an index in a table.
abbrev named : List (List ℕ) → ℕ → List ℕ
named names i = elim (name_at names i) [ none ↦ [] | some name ↦ name ]

-- Sat, 04 Nov 2023 17:47:03 +0300
abbrev pub rfc822_text : Tm → List ℕ
rfc822_text t = joined (
    named wdays t.tm_wday
    ∷ (b',' ∷ [])
    ∷ (b' ' ∷ [])
    ∷ two t.tm_mday
    ∷ (b' ' ∷ [])
    ∷ named months t.tm_mon
    ∷ (b' ' ∷ [])
    ∷ decimal (t.tm_year + 1900)
    ∷ (b' ' ∷ [])
    ∷ two t.tm_hour
    ∷ (b':' ∷ [])
    ∷ two t.tm_min
    ∷ (b':' ∷ [])
    ∷ two t.tm_sec
    ∷ (b' ' ∷ [])
    ∷ (b'+' ∷ [])
    ∷ (b'0' ∷ [])
    ∷ (b'3' ∷ [])
    ∷ (b'0' ∷ [])
    ∷ (b'0' ∷ [])
    ∷ [])

mday_small : (t : Tm) → IsDate t → t.tm_mday < 100
mday_small t d = ground (arith, d.mday_in)

-- Names of three letters.
abbrev Threes : List (List ℕ) → Type 0
Threes [] = Unit {0}
Threes (name ∷ names) = (length name ≡ 3) × Threes names

name_at-Threes :
    (names : List (List ℕ)) (i : ℕ)
    → Threes names
    → i < length names
    → (name : List ℕ) × (name_at names i ≡ some name) × (length name ≡ 3)
name_at-Threes [] i h lt = absurd (omega arith)
name_at-Threes (name ∷ names) zero h lt = (name, refl, h.0)
name_at-Threes (name ∷ names) (suc i) h lt = name_at-Threes names i h.1 (omega arith)

digits_of-length : (fuel k x : ℕ) → x < 10 ^ k → length (digits_of fuel x) ≤ k
unfolding digits_of
digits_of-length zero k x lt = omega arith
digits_of-length (suc fuel) zero x lt = let e : x ≡ 0 = omega arith in rw e (omega arith)
digits_of-length (suc fuel) (suc k) x lt =
    let shorter : x / 10 < 10 ^ k = omega (arith, pow-suc 10 k) in
    ground (
      arith,
      digits_of-length fuel k (x / 10) shorter,
      length-append (digits_of fuel (x / 10)) ((b'0' + x % 10) ∷ []),
    )

decimal-length_four : (x : ℕ) → x < 10000 → length (decimal x) ≤ 4
decimal-length_four x lt = ground (arith, digits_of-length max_digits 4 x lt)

wdays-Threes : Threes wdays
wdays-Threes = (refl, (refl, (refl, (refl, (refl, (refl, (refl, tt)))))))

months-Threes : Threes months
months-Threes = (
  refl,
  (refl, (refl, (refl, (refl, (refl, (refl, (refl, (refl, (refl, (refl, (refl, tt))))))))))),
)

-- What is printed into a buffer: the text, its length as the result, and no other byte changed.
abbrev pub IsPrinted : ℕ → ℕ → Mem → List ℕ → Mem × ℕ → Type 0
IsPrinted base size m text r = (r.1 ≡ length text) × Filled base size m r.0 r.1 text

module _ (base size : ℕ) (m : Mem) (small : size < u64) where
  -- The state of a printer with a text of at most k bytes.
  abbrev Prints : ℕ → List ℕ → Mem × ℕ → Type 0
  Prints k text r = Printed base size m small text r × (length text ≤ k)

  char_step :
      (k c : ℕ) (text : List ℕ) (r : Mem × ℕ)
      → Prints k text r
      → k < size
      → Prints (k + 1) (text ++ c ∷ []) (char_at (unsafe_slice base size) c r)
  char_step k c text r (p, le) room = (
    char_prints base size m small c text r p (omega arith),
    omega (arith, length-append text (c ∷ [])),
  )

  padded_step :
      (k x : ℕ) (text : List ℕ) (r : Mem × ℕ)
      → Prints k text r
      → x < 100
      → k + 3 ≤ size
      → Prints (k + 2) (text ++ two x) (padded_at (unsafe_slice base size) x r)
  padded_step k x text r (p, le) lt room = (
    padded_prints base size m small x text r lt p (omega arith),
    omega (arith, length-append text (two x)),
  )

  year_step :
      (k x : ℕ) (text : List ℕ) (r : Mem × ℕ)
      → Prints k text r
      → x < 10000
      → k + 4 ≤ size
      → Prints (k + 4) (text ++ decimal x) (int_at (unsafe_slice base size) x r)
  year_step k x text (m', n) ((count, f), le) lt room =
      let four = decimal-length_four x lt in
      let p = int_fills base size m m' n text f x (omega arith) small (omega (arith, count)) in
      rw p.0 (
        (omega (arith, length-append text (decimal x)), p.1),
        omega (arith, length-append text (decimal x)),
      )

  text_step :
      (k l : ℕ) (name text : List ℕ) (r : Mem × ℕ)
      → Prints k text r
      → length name ≡ l
      → k + l ≤ size
      → Prints (k + l) (text ++ name) (text_at (unsafe_slice base size) name r)
  text_step k l name text (m', n) ((count, f), le) e room =
      let p = literal_fills base size m m' n text f name small (omega (arith, count)) in
      rw p.0 ((omega (arith, length-append text name), p.1), omega (arith, length-append text name))

  -- Some characters, one after another.
  abbrev chars_at : List ℕ → Mem × ℕ → Mem × ℕ
  chars_at [] r = r
  chars_at (c ∷ cs) r = chars_at cs (char_at (unsafe_slice base size) c r)

  abbrev with_chars : List ℕ → List ℕ → List ℕ
  with_chars text [] = text
  with_chars text (c ∷ cs) = with_chars (text ++ c ∷ []) cs

  chars_step :
      (k : ℕ) (cs text : List ℕ) (r : Mem × ℕ)
      → Prints k text r
      → k + length cs ≤ size
      → Prints (k + length cs) (with_chars text cs) (chars_at cs r)
  chars_step k [] text r p room = (p.0, omega (arith, p.1))
  chars_step k (c ∷ cs) text r p room =
      let q = chars_step (k + 1) cs _ _ (char_step k c text r p (omega arith)) (omega arith) in
      (q.0, omega (arith, q.1))

  -- 17:47:03
  clock_step :
      (k : ℕ) (t : Tm) (text : List ℕ) (r : Mem × ℕ)
      → Prints k text r
      → IsDate t
      → k + 9 ≤ size
      → let s = unsafe_slice base size in
        Prints
          (k + 8)
          (joined_to text
            (two t.tm_hour ∷ (b':' ∷ []) ∷ two t.tm_min ∷ (b':' ∷ []) ∷ two t.tm_sec ∷ []))
          (padded_at s t.tm_sec
            (char_at s b':' (padded_at s t.tm_min (char_at s b':' (padded_at s t.tm_hour r)))))
  clock_step k t text r p d room =
      let p1 = padded_step k t.tm_hour _ _ p (omega (arith, d.hour_in)) (omega arith) in
      let p2 = char_step (k + 2) b':' _ _ p1 (omega arith) in
      let p3 = padded_step (k + 2 + 1) t.tm_min _ _ p2 (omega (arith, d.min_in)) (omega arith) in
      let p4 = char_step (k + 2 + 1 + 2) b':' _ _ p3 (omega arith) in
      let p5 =
        padded_step (k + 2 + 1 + 2 + 1) t.tm_sec _ _ p4 (omega (arith, d.sec_in)) (omega arith) in
      (p5.0, omega (arith, p5.1))

  -- For a `struct tm` with fields in range and a year before 10000, into a buffer of at least 31
  -- bytes, `tm_in_slice` writes the date and the time whole, and changes no other byte.
  pub tm_in_slice-date_text :
      (t : Tm)
      → IsDate t
      → t.tm_year + 1900 < 10000
      → 31 ≤ size
      → IsPrinted base size m (date_text t) (tm_in_slice m (unsafe_slice base size) t)
  unfolding tm_in_slice
  tm_in_slice-date_text t d short room =
      let p0 : Prints 0 [] (m, 0) = ((refl, Filled-start base size m), omega arith) in
      let p1 = padded_step 0 t.tm_mday [] _ p0 (mday_small t d) (omega arith) in
      let p2 =
        padded_step 3 (t.tm_mon + 1) _ _ (char_step 2 b'.' _ _ p1 (omega arith))
          (omega (arith, d.mon_in)) (omega arith) in
      let p3 =
        year_step 6 (t.tm_year + 1900) _ _ (char_step 5 b'.' _ _ p2 (omega arith)) short
          (omega arith) in
      let p4 = clock_step 11 t _ _ (char_step 10 b' ' _ _ p3 (omega arith)) d (omega arith) in
      (chars_step 19 (b' ' ∷ b'M' ∷ b'S' ∷ b'K' ∷ []) _ _ p4 (omega arith)).0

  -- For a `struct tm` with fields in range and a year before 10000, into a buffer of at least 31
  -- bytes, `tm_rfc822_in_slice` finds the names of the weekday and of the month, writes the date
  -- and the time whole, and changes no other byte.
  pub tm_rfc822_in_slice-rfc822_text :
      (t : Tm)
      → IsDate t
      → t.tm_year + 1900 < 10000
      → 31 ≤ size
      → (r : Mem × ℕ) × (tm_rfc822_in_slice m (unsafe_slice base size) t ≡ some r)
        × IsPrinted base size m (rfc822_text t) r
  unfolding tm_rfc822_in_slice
  tm_rfc822_in_slice-rfc822_text t d short room =
      let (wday, ew, lw) = name_at-Threes wdays t.tm_wday wdays-Threes d.wday_in in
      let (month, em, lm) = name_at-Threes months t.tm_mon months-Threes d.mon_in in
      let q = literal_starts base size m wday small (omega (arith, lw)) in
      let p0 : Prints 3 wday (literal_in_slice m (unsafe_slice base size) wday (length wday)) =
        rw q.0 ((refl, q.1), omega (arith, lw)) in
      let p1 = char_step 4 b' ' _ _ (char_step 3 b',' _ _ p0 (omega arith)) (omega arith) in
      let p2 =
        char_step 7 b' ' _ _ (padded_step 5 t.tm_mday _ _ p1 (mday_small t d) (omega arith))
          (omega arith) in
      let p3 = char_step 11 b' ' _ _ (text_step 8 3 month _ _ p2 lm (omega arith)) (omega arith) in
      let p4 = year_step 12 (t.tm_year + 1900) _ _ p3 short (omega arith) in
      let p5 = clock_step 17 t _ _ (char_step 16 b' ' _ _ p4 (omega arith)) d (omega arith) in
      let p6 = chars_step 25 (b' ' ∷ b'+' ∷ b'0' ∷ b'3' ∷ b'0' ∷ b'0' ∷ []) _ _ p5 (omega arith) in
      rw (tm_rfc822_in_slice, ew, em) (_, refl, p6.0)
