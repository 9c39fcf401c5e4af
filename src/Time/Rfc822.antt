-- ===== src/Time/Rfc822.antt =====
-- `tm_rfc822_in_slice` of lib/cfa/src/time.c.
use chat_server.Base.{ℕ, zero, suc, ◌+◌, List, [], ◌∷◌, Option, none, some, length}
use chat_server.Memory.{Mem}
use chat_server.Builtin.Slices.{Slice, slice_left, literal_in_slice}
use chat_server.Time.{Tm, char_at, int_at, padded_at}

abbrev pub wdays : List (List ℕ)
wdays =
    (b'S' ∷ b'u' ∷ b'n' ∷ [])
    ∷ (b'M' ∷ b'o' ∷ b'n' ∷ [])
    ∷ (b'T' ∷ b'u' ∷ b'e' ∷ [])
    ∷ (b'W' ∷ b'e' ∷ b'd' ∷ [])
    ∷ (b'T' ∷ b'h' ∷ b'u' ∷ [])
    ∷ (b'F' ∷ b'r' ∷ b'i' ∷ [])
    ∷ (b'S' ∷ b'a' ∷ b't' ∷ [])
    ∷ []

abbrev pub months : List (List ℕ)
months =
    (b'J' ∷ b'a' ∷ b'n' ∷ [])
    ∷ (b'F' ∷ b'e' ∷ b'b' ∷ [])
    ∷ (b'M' ∷ b'a' ∷ b'r' ∷ [])
    ∷ (b'A' ∷ b'p' ∷ b'r' ∷ [])
    ∷ (b'M' ∷ b'a' ∷ b'y' ∷ [])
    ∷ (b'J' ∷ b'u' ∷ b'n' ∷ [])
    ∷ (b'J' ∷ b'u' ∷ b'l' ∷ [])
    ∷ (b'A' ∷ b'u' ∷ b'g' ∷ [])
    ∷ (b'S' ∷ b'e' ∷ b'p' ∷ [])
    ∷ (b'O' ∷ b'c' ∷ b't' ∷ [])
    ∷ (b'N' ∷ b'o' ∷ b'v' ∷ [])
    ∷ (b'D' ∷ b'e' ∷ b'c' ∷ [])
    ∷ []

-- The name at an index; there is none behind the end.
abbrev pub name_at : List (List ℕ) → ℕ → Option (List ℕ)
name_at [] i = none
name_at (name ∷ names) zero = some name
name_at (name ∷ names) (suc i) = name_at names i

-- n += c_string_in_slice(slice_left(s, n), name);
abbrev pub text_at : Slice → List ℕ → Mem × ℕ → Mem × ℕ
text_at s name (m, n) =
    let (m1, k) = literal_in_slice m (slice_left s n) name (length name) in (m1, n + k)

-- Behind the names of the day and the month: 04 Nov 2023 17:47:03 +0300
abbrev pub rest_at : Slice → Tm → List ℕ → Mem × ℕ → Mem × ℕ
rest_at s t month r =
    let date = char_at s b' ' (
      int_at s (t.tm_year + 1900)
        (char_at s b' ' (text_at s month (char_at s b' ' (padded_at s t.tm_mday r))))) in
    let clock = char_at s b' ' (
      padded_at s t.tm_sec
        (char_at s b':' (padded_at s t.tm_min (char_at s b':' (padded_at s t.tm_hour date))))) in
    char_at s b'0' (char_at s b'0' (char_at s b'3' (char_at s b'0' (char_at s b'+' clock))))

-- `none` where the weekday or the month is out of the tables. The first name goes to the slice
-- itself.
unfoldable pub tm_rfc822_in_slice : Mem → Slice → Tm → Option (Mem × ℕ)
tm_rfc822_in_slice m s t = elim (name_at wdays t.tm_wday) [
  | none ↦ none
  | some wday ↦ elim (name_at months t.tm_mon) [
    | none ↦ none
    | some month ↦ some (
        rest_at s t month
          (char_at s b' ' (char_at s b',' (literal_in_slice m s wday (length wday)))))
  ]
]
