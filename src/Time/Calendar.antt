-- ===== src/Time/Calendar.antt =====
-- `time_to_tm` finds the date and the time.
use chat_server.Base.{
  ◌^◌, ℕ, zero, suc, ◌+◌, ◌-◌, ◌*◌, ◌/◌, ◌%◌, ◌≤◌, ◌<◌, ◌≡◌, refl, true, false, Bool, ◌||◌, arith,
  ◌==◌, if◌then◌else◌,
}
use chat_server.Time.{Tm, is_leap, find_month, split_year, fields, time_to_tm}

-- The Gregorian calendar, independently of the tables: the length of a year, and the days before a
-- year, from 1601 on.
abbrev pub year_length : ℕ → ℕ
year_length year = if is_leap year then 366 else 365

abbrev pub days_before_year : ℕ → ℕ
days_before_year year = let y = year - 1601 in 365 * y + y / 4 - y / 100 + y / 400

split_year_exact :
    (sec : ℕ)
    → let (year, rest) = split_year sec in
      (1601 ≤ year)
      × (days_before_year year * 86400 + rest ≡ sec)
      × (rest < year_length year * 86400)
unfolding split_year is_leap
split_year_exact sec = ground arith

abbrev pub days_in_month : Bool → ℕ → ℕ
days_in_month leap mon =
    if mon == 1
    then (if leap then 29 else 28)
    else if (mon == 3) || (mon == 5) || (mon == 8) || (mon == 10)
    then 30
    else 31

-- The days of a year before the given month, counted from 0.
abbrev pub days_before_month : Bool → ℕ → ℕ
days_before_month leap zero = 0
days_before_month leap (suc mon) = days_before_month leap mon + days_in_month leap mon

-- A month and a day in it, for the day of the year.
abbrev IsDayOf : Bool → ℕ → ℕ × ℕ → Type 0
IsDayOf leap yday (month, mday) =
    (1 ≤ month)
    × (month ≤ 12)
    × (1 ≤ mday)
    × (mday ≤ days_in_month leap (month - 1))
    × (days_before_month leap (month - 1) + (mday - 1) ≡ yday)

find_month-IsDayOf :
    (leap : Bool) (yday : ℕ)
    → yday < (if leap then 366 else 365)
    → IsDayOf leap yday (find_month 12 leap yday 1)
unfolding find_month
find_month-IsDayOf true yday lt = ground arith
find_month-IsDayOf false yday lt = ground arith

-- The seconds from 1601-01-01 to the date and time that a `struct tm` shows, its day found from
-- the year, the month and the day of the month.
abbrev pub seconds_of : Tm → ℕ
seconds_of t =
    (days_before_year (t.tm_year + 1900)
        + days_before_month (is_leap (t.tm_year + 1900)) t.tm_mon
        + (t.tm_mday - 1))
      * 86400
    + t.tm_hour * 3600
    + t.tm_min * 60
    + t.tm_sec

-- Every field is in its range.
pub record IsDate (t : Tm) : Type 0 where
  pub sec_in : t.tm_sec < 60
  pub min_in : t.tm_min < 60
  pub hour_in : t.tm_hour < 24
  pub mon_in : t.tm_mon < 12
  pub mday_in : (1 ≤ t.tm_mday) × (t.tm_mday ≤ days_in_month (is_leap (t.tm_year + 1900)) t.tm_mon)
  pub wday_in : t.tm_wday < 7
  pub yday_in : t.tm_yday < year_length (t.tm_year + 1900)

module _ (year sec wday : ℕ) (from : 1900 ≤ year) (narrow : year < 2 ^ 31)
    (small : sec < year_length year * 86400) where
  day_in : sec / 86400 < (if is_leap year then 366 else 365)
  day_in = ground arith

  same_year : (year - 1900) % 2 ^ 32 + 1900 ≡ year
  same_year = omega arith

  fields-IsDate : wday < 7 → IsDate (fields year sec wday)
  unfolding fields
  fields-IsDate seven =
      let m = find_month-IsDayOf (is_leap year) (sec / 86400) day_in in
      record {
        sec_in = omega arith;
        min_in = omega arith;
        hour_in = omega arith;
        mon_in = omega (arith, m.0, m.1);
        mday_in = rw same_year (m.2, m.3);
        wday_in = seven;
        yday_in = rw same_year day_in;
      }

  fields-seconds_of : seconds_of (fields year sec wday) ≡ days_before_year year * 86400 + sec
  unfolding fields
  fields-seconds_of =
      let m = find_month-IsDayOf (is_leap year) (sec / 86400) day_in in
      rw same_year (omega (arith, m.2, m.4))

wday_is : (year rest wday : ℕ) → (fields year rest wday).tm_wday ≡ wday
unfolding fields
wday_is year rest wday = refl

year_late :
    (year rest : ℕ)
    → 1601 ≤ year
    → rest < 366 * 86400
    → 11644473600 ≤ days_before_year year * 86400 + rest
    → 1969 ≤ year
year_late year rest lo small sum = omega arith

year_below :
    (year rest t : ℕ)
    → t < 2 ^ 55
    → days_before_year year * 86400 + rest ≡ t + 3 * 60 * 60 + 11644473600
    → year < 2 ^ 31
year_below year rest t lt sum = omega (arith, lt, sum)

-- The time of day, for any number of seconds.
pub time_to_tm-time :
    (t : ℕ)
    → ((time_to_tm t).tm_sec < 60) × ((time_to_tm t).tm_min < 60) × ((time_to_tm t).tm_hour < 24)
unfolding time_to_tm fields
time_to_tm-time t = (omega arith, omega arith, omega arith)

-- For fewer than 2 ^ 55 seconds since 1970, with which no sum overflows and the year fits into an
-- int, every field of the answer of `time_to_tm` is in its range, the date and time that they show
-- are so many seconds after the start of 1970, in the time zone three hours ahead, by the Gregorian
-- calendar, and the day of the week is that of the date, where 1601 began on a Monday.
pub time_to_tm-seconds_of :
    (t : ℕ)
    → t < 2 ^ 55
    → IsDate (time_to_tm t)
      × (seconds_of (time_to_tm t) ≡ days_before_year 1970 * 86400 + (t + 3 * 3600))
      × ((time_to_tm t).tm_wday ≡ (seconds_of (time_to_tm t) / 86400 + 1) % 7)
unfolding time_to_tm
time_to_tm-seconds_of t lt =
    let sec = t + 3 * 60 * 60 + 11644473600 in
    let (year, rest) = split_year sec in
    let e = split_year_exact sec in
    let long : rest < 366 * 86400 = ground (arith, e.2) in
    let late = year_late year rest e.0 long (omega (arith, e.1)) in
    let narrow = year_below year rest t lt e.1 in
    let shown = fields-seconds_of year rest ((sec / 86400 + 1) % 7) (omega arith) narrow e.2 in
    (
      fields-IsDate year rest ((sec / 86400 + 1) % 7) (omega arith) narrow e.2 (omega arith),
      omega (arith, shown, e.1),
      rw (shown, e.1) (wday_is year rest ((sec / 86400 + 1) % 7)),
    )
