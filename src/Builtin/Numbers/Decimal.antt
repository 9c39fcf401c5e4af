-- ===== src/Builtin/Numbers/Decimal.antt =====
-- `int_in_slice` prints the decimal digits of a number.
use native.Mathlib.Nat.{pow-suc, add-zero, zero-add, pow-le-pow_right}
use chat_server.Base.{
  ℕ, zero, suc, ◌+◌, ◌-◌, ◌*◌, ◌/◌, ◌%◌, ◌^◌, ◌≤◌, ◌<◌, ◌≡◌, refl, ap, ◌∙◌, sym, false, List, [],
  ◌∷◌, ◌++◌, arith, ◌==◌, if◌then◌else◌, length, length-append, append_assoc, append-nil,
  Bool-cases, inl, inr,
}
use chat_server.Base.Int.{ℤ, pos, negsuc}
use chat_server.Memory.{Mem, store}
use chat_server.Builtin.Slices.{Slice, u64, put, unsafe_slice, slice_left}
use chat_server.Builtin.Slices.Fill.{Filled, Filled-more, put_outside, bytes-put}
use chat_server.Builtin.Numbers.{
  reverse_digits, emit_digits, print_digits, int_in_slice, max_digits,
}

-- The decimal digits of a number below 10 ^ fuel, none for 0, as characters.
unfoldable pub digits_of : ℕ → ℕ → List ℕ
digits_of zero x = []
digits_of (suc fuel) x =
    let rest = digits_of fuel (x / 10) in if x == 0 then [] else rest ++ (b'0' + x % 10) ∷ []

abbrev pub decimal : ℕ → List ℕ
decimal x = if x == 0 then b'0' ∷ [] else digits_of max_digits x

-- The number that characters of digits stand for.
abbrev pub value_from : ℕ → List ℕ → ℕ
value_from acc [] = acc
value_from acc (d ∷ ds) = value_from (10 * acc + (d - b'0')) ds

value-append :
    (acc d : ℕ) (ds : List ℕ) → value_from acc (ds ++ d ∷ []) ≡ 10 * value_from acc ds + (d - b'0')
value-append acc d [] = refl
value-append acc d (e ∷ ds) = value-append (10 * acc + (e - b'0')) d ds

value-digits_of : (fuel x : ℕ) → x < 10 ^ fuel → value_from 0 (digits_of fuel x) ≡ x
unfolding digits_of
value-digits_of zero x lt = omega arith
value-digits_of (suc fuel) x lt = ground (
  arith,
  value-append 0 (b'0' + x % 10) (digits_of fuel (x / 10)),
  value-digits_of fuel (x / 10),
  pow-suc 10 fuel,
)

-- Reading the decimal digits of a number gives the number.
pub value-decimal : (x : ℕ) → x < 10 ^ 19 → value_from 0 (decimal x) ≡ x
value-decimal x lt = ground (arith, value-digits_of max_digits x lt)

-- What the second loop writes.
emitted : ℕ → ℕ → List ℕ
emitted zero rx = []
emitted (suc n) rx = (rx % 10 + b'0') ∷ emitted n (rx / 10)

length-emitted : (n rx : ℕ) → length (emitted n rx) ≡ n
unfolding emitted
length-emitted zero rx = refl
length-emitted (suc n) rx = ap suc (length-emitted n (rx / 10))

emit_digits-put :
    (n : ℕ) (m : Mem) (buf bound i rx : ℕ)
    → i + n ≤ bound
    → emit_digits n m buf bound i rx ≡ (put m (buf + i) (emitted n rx), i + n)
unfolding emit_digits emitted
emit_digits-put zero m buf bound i rx room = rw (add-zero i)
emit_digits-put (suc n) m buf bound i rx room =
    let more : (bound - i == 0) ≡ false = ground arith in
    let at : buf + (i + 1) ≡ buf + i + 1 = omega arith in
    let count : i + 1 + n ≡ i + suc n = omega arith in
    rw more (
      emit_digits-put n (store m (buf + i) (rx % 10 + b'0')) buf bound (i + 1) (rx / 10)
        (omega arith)
      ∙ rw (at, count))

emitted-more : (n rx d : ℕ) → d < 10 → emitted (n + 1) (10 * rx + d) ≡ (b'0' + d) ∷ emitted n rx
unfolding emitted
emitted-more n rx d lt =
    let e : n + 1 ≡ suc n = omega arith in
    let last : (10 * rx + d) % 10 + b'0' ≡ b'0' + d = omega arith in
    let front : (10 * rx + d) / 10 ≡ rx = omega arith in rw (e, last, front)

add-one-pow : (n : ℕ) → 10 ^ (n + 1) ≡ 10 ^ suc n
add-one-pow n = let e : n + 1 ≡ suc n = omega arith in rw e

reverse_digits-emitted :
    (left x rx n : ℕ)
    → x < 10 ^ left
    → rx < 10 ^ n
    → n + left ≤ 19
    → let (rx', n') = reverse_digits left x rx n in
      (emitted n' rx' ≡ digits_of left x ++ emitted n rx) × (n' ≤ n + left)
unfolding reverse_digits digits_of emitted
reverse_digits-emitted zero x rx n small fits room = (refl, omega arith)
reverse_digits-emitted (suc left) x rx n small fits room = elim (Bool-cases (x == 0)) [
  | inl done ↦ rw done (refl, omega arith)
  | inr more ↦
      let d = x % 10 in
      let bound : 10 ^ n ≤ 10 ^ 18 =
        pow-le-pow_right {n = 10} (omega arith) {i = n} {j = 18} (omega arith) in
      let no_wrap : (10 * rx + d) % u64 ≡ 10 * rx + d = omega arith in
      let next : emitted (n + 1) (10 * rx + d) ≡ (b'0' + d) ∷ emitted n rx =
        emitted-more n rx d (omega arith) in
      let ih =
        reverse_digits-emitted left (x / 10) (10 * rx + d) (n + 1) (omega (arith, pow-suc 10 left))
          (omega (arith, pow-suc 10 n, add-one-pow n)) (omega arith) in
      rw (more, no_wrap)
        (
          ih.0
              ∙ rw next
                  (sym (append_assoc (digits_of left (x / 10)) ((b'0' + d) ∷ []) (emitted n rx))),
          omega (arith, ih.1),
        )
]

digits_of-pos : (fuel x : ℕ) → (x == 0) ≡ false → 0 < length (digits_of (suc fuel) x)
unfolding digits_of
digits_of-pos fuel x nz =
    rw nz (omega (arith, length-append (digits_of fuel (x / 10)) ((b'0' + x % 10) ∷ [])))

print_digits-put :
    (m : Mem) (s : Slice) (i x : ℕ)
    → x < 10 ^ 19
    → i + length (digits_of max_digits x) ≤ s.cap
    → print_digits m s i x
      ≡ (put m (s.base + i) (digits_of max_digits x), i + length (digits_of max_digits x))
unfolding print_digits emitted
print_digits-put m s i x small room =
    let r = reverse_digits max_digits x 0 0 in
    let text : emitted r.1 r.0 ≡ digits_of max_digits x =
      (reverse_digits-emitted max_digits x 0 0 small (omega arith) (omega arith)).0
      ∙ append-nil (digits_of max_digits x) in
    let count : length (digits_of max_digits x) ≡ r.1 =
      ap length (sym text) ∙ length-emitted r.1 r.0 in
    rw (count, ← text) (emit_digits-put r.1 m s.base s.cap i r.0 (omega arith))

-- Where there is room `int_in_slice` writes exactly the decimal digits.
pub int_in_slice-put :
    (m : Mem) (s : Slice) (x : ℕ)
    → x < 10 ^ 19
    → length (decimal x) ≤ s.cap
    → int_in_slice m s (pos x) ≡ (put m s.base (decimal x), length (decimal x))
unfolding int_in_slice
int_in_slice-put m s x small room = elim (Bool-cases (x == 0)) [
  | inl z ↦ ground arith
  | inr nz ↦
      let room' : length (digits_of max_digits x) ≤ s.cap = rw nz at room in
      let some_cap : (s.cap == 0) ≡ false = ground (arith, digits_of-pos 18 x nz, room') in
      rw (some_cap, nz)
        (print_digits-put m s 0 x small (omega (arith, room'))
          ∙ rw (zero-add _, add-zero s.base) refl)
]

-- A text that stands for an integer: digits, behind a sign if it is negative.
abbrev pub IsNumeral : ℤ → List ℕ → Type 0
IsNumeral (pos x) text = value_from 0 text ≡ x
IsNumeral (negsuc n) [] = ⊥
IsNumeral (negsuc n) (ch ∷ text) = (ch ≡ b'-') × (value_from 0 text ≡ n + 1)

-- An int64 but the least one, and as many bytes as its text has.
abbrev pub FitsIn : ℤ → ℕ → Type 0
FitsIn (pos x) room = (x < 2 ^ 63) × (length (decimal x) ≤ room)
FitsIn (negsuc n) room = (n + 1 < 2 ^ 63) × (1 + length (decimal (n + 1)) ≤ room)

module _ (base size : ℕ) (m m' : Mem) (i : ℕ) (text : List ℕ)
    (f : Filled base size m m' i text) where
  -- The decimal digits of a number, added to a buffer that has room for them.
  pub int_fills :
      (x : ℕ)
      → x < 10 ^ 19
      → size < u64
      → i + length (decimal x) ≤ size
      → let r = int_in_slice m' (slice_left (unsafe_slice base size) i) (pos x) in
        (r.1 ≡ length (decimal x))
        × Filled base size m r.0 (i + length (decimal x)) (text ++ decimal x)
  unfolding slice_left unsafe_slice
  int_fills x small fits room =
      rw
        (int_in_slice-put m' (slice_left (unsafe_slice base size) i) x small
          (omega (arith, f.fits)))
        (
          refl,
          Filled-more base size m m' i text f (put m' (base + i) (decimal x)) (length (decimal x))
              (decimal x) room (put_outside m' (base + i) (decimal x))
              (bytes-put m' (base + i) (decimal x)),
        )
