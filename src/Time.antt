-- ===== src/Time.antt =====
-- lib/cfa/src/time.c: `time_to_tm` and the clock as text. As its comment says, the argument counts
-- the seconds that have passed since 1970, so it and every number here is at least 0; they stay
-- far below 2 ^ 63.
pub mod Calendar
pub mod Clock
pub mod Rfc822
pub mod Dates
use chat_server.Base.{
  ◌^◌, ℕ, zero, suc, ◌+◌, ◌-◌, ◌*◌, ◌/◌, ◌%◌, ◌&&◌, ◌||◌, not, Bool, List, [], ◌∷◌, ltb, ◌==◌,
  if◌then◌else◌,
}
use chat_server.Base.Int.{ℤ, pos, negsuc}
use chat_server.Memory.{Mem, store}
use chat_server.Builtin.Slices.{Slice, slice_left}
use chat_server.Builtin.Numbers.{int_in_slice}

-- The value at an index of a table, 0 behind its end.
abbrev pub get_or : List ℕ → ℕ → ℕ
get_or [] i = 0
get_or (x ∷ xs) zero = x
get_or (x ∷ xs) (suc i) = get_or xs i

abbrev pub days_since_jan_1st : Bool → List ℕ
days_since_jan_1st leap =
    if leap
    then 0 ∷ 31 ∷ 60 ∷ 91 ∷ 121 ∷ 152 ∷ 182 ∷ 213 ∷ 244 ∷ 274 ∷ 305 ∷ 335 ∷ 366 ∷ []
    else 0 ∷ 31 ∷ 59 ∷ 90 ∷ 120 ∷ 151 ∷ 181 ∷ 212 ∷ 243 ∷ 273 ∷ 304 ∷ 334 ∷ 365 ∷ []

-- `struct tm`. `tm_zone` is a nil pointer. An int is written modulo 2 ^ 32; from 2 ^ 31 on it is
-- negative in C.
pub record Tm : Type 0 where
  pub tm_sec : ℕ
  pub tm_min : ℕ
  pub tm_hour : ℕ
  pub tm_mday : ℕ
  pub tm_mon : ℕ
  pub tm_year : ℕ
  pub tm_wday : ℕ
  pub tm_yday : ℕ
  pub tm_isdst : ℤ
  pub tm_gmtoff : ℕ
  pub tm_zone : ℕ

-- A quotient, but at most the given bound: `q = a / b; if (q > bound) q = bound;`
abbrev pub capped : ℕ → ℕ → ℕ → ℕ
capped a b bound = if ltb bound (a / b) then bound else a / b

pub is_leap : ℕ → Bool
is_leap year = (year % 4 == 0) && (not (year % 100 == 0) || (year % 400 == 0))

-- for (month = 1, mday = 1; month <= 12; month++), with the rounds that are left: month and mday.
pub find_month : ℕ → Bool → ℕ → ℕ → ℕ × ℕ
find_month zero leap yday month = (month, 1)
find_month (suc left) leap yday month =
    let rest = find_month left leap yday (month + 1) in
    if ltb yday (get_or (days_since_jan_1st leap) month)
    then (month, 1 + (yday - get_or (days_since_jan_1st leap) (month - 1)))
    else rest

-- The year, and the seconds that have passed in it, from the seconds since 1601.
pub split_year : ℕ → ℕ × ℕ
split_year sec =
    let quadricentennials = sec / 12622780800 in
    let sec1 = sec % 12622780800 in
    let centennials = capped sec1 3155673600 3 in
    let sec2 = sec1 - centennials * 3155673600 in
    let quadrennials = capped sec2 126230400 24 in
    let sec3 = sec2 - quadrennials * 126230400 in
    let annuals = capped sec3 31536000 3 in
    (
      1601 + quadricentennials * 400 + centennials * 100 + quadrennials * 4 + annuals,
      sec3 - annuals * 31536000,
    )

-- The fields, from the year, the seconds in it and the day of the week.
pub fields : ℕ → ℕ → ℕ → Tm
fields year sec wday =
    let yday = sec / 86400 in
    let rest = sec % 86400 in
    let (month, mday) = find_month 12 (is_leap year) yday 1 in
    record {
      tm_sec = rest % 3600 % 60;
      tm_min = rest % 3600 / 60;
      tm_hour = rest / 3600;
      tm_mday = mday;
      tm_mon = month - 1;
      tm_year = (year - 1900) % 2 ^ 32;
      tm_wday = wday;
      tm_yday = yday;
      tm_isdst = negsuc 0;
      tm_gmtoff = 3 * 60 * 60;
      tm_zone = 0;
    }

-- Moscow time, and the era from 1970 to 1601. The sums are below 2 ^ 63 for a t below
-- 2 ^ 63 - 11644484400; from there on they overflow, which has no meaning in C.
pub time_to_tm : ℕ → Tm
time_to_tm t =
    let sec = t + 3 * 60 * 60 + 11644473600 in
    let (year, rest) = split_year sec in fields year rest ((sec / 86400 + 1) % 7)

-- buf[n++] = c;
abbrev pub char_at : Slice → ℕ → Mem × ℕ → Mem × ℕ
char_at s c (m, n) = (store m (s.base + n) c, n + 1)

-- n += int_in_slice(slice_left(s, n), x);
abbrev pub int_at : Slice → ℕ → Mem × ℕ → Mem × ℕ
int_at s x (m, n) = let (m', k) = int_in_slice m (slice_left s n) (pos x) in (m', n + k)

-- if (x < 10) buf[n++] = '0'; n += int_in_slice(slice_left(s, n), x);
abbrev pub padded_at : Slice → ℕ → Mem × ℕ → Mem × ℕ
padded_at s x r = int_at s x (if ltb x 10 then char_at s b'0' r else r)

-- 15:13:54 MSK, with no padding of the hour.
pub tm_in_slice2 : Mem → Slice → Tm → Mem × ℕ
tm_in_slice2 m s t = char_at s b'K' (
    char_at s b'S' (
      char_at s b'M' (
        char_at s b' ' (
          padded_at s t.tm_sec (
            char_at s b':'
              (padded_at s t.tm_min (char_at s b':' (int_in_slice m s (pos t.tm_hour)))))))))

-- 08.10.2023 15:13:54 MSK
pub tm_in_slice : Mem → Slice → Tm → Mem × ℕ
tm_in_slice m s t =
    let date = char_at s b' ' (
      int_at s (t.tm_year + 1900) (
        char_at s b'.'
          (padded_at s (t.tm_mon + 1) (char_at s b'.' (padded_at s t.tm_mday (m, 0)))))) in
    char_at s b'K' (
      char_at s b'S' (
        char_at s b'M' (
          char_at s b' ' (
            padded_at s t.tm_sec (
              char_at s b':'
                (padded_at s t.tm_min (char_at s b':' (padded_at s t.tm_hour date))))))))
