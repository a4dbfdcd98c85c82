-- ===== src/Quota/Calendar.antt =====
-- What the code takes of Go's package time: UTC dates from unix days, with months counted from
-- January 1970, weekdays and ISO weeks.
pub mod Months
use oma_server.Common.{
  ℕ, zero, suc, ◌+◌, ◌-◌, ◌*◌, ◌/◌, ◌%◌, Bool, true, false, not, ◌||◌, if◌then◌else◌, ltb, eqb,
}

abbrev pub seconds_per_day : ℕ
seconds_per_day = 86400

unfoldable pub is_leap : ℕ → Bool
is_leap y =
    if not (eqb (y % 4) 0) then false else if not (eqb (y % 100) 0) then true else eqb (y % 400) 0

-- Month i is month i % 12 + 1 of the year.
abbrev pub year_of : ℕ → ℕ
year_of i = 1970 + i / 12

abbrev pub month_of : ℕ → ℕ
month_of i = i % 12 + 1

unfoldable pub month_len : ℕ → ℕ
unfolding is_leap
month_len i =
    let m = month_of i in
    if eqb m 2
    then (if is_leap (year_of i) then 29 else 28)
    else if eqb m 4 || eqb m 6 || eqb m 9 || eqb m 11
    then 30
    else 31

-- The day on which month i starts.
unfoldable pub month_start : ℕ → ℕ
month_start zero = 0
month_start (suc i) = month_start i + month_len i

-- Month by month from month i; the second part is the day in the month, from 0.
unfoldable pub find_month : ℕ → ℕ → ℕ → ℕ × ℕ
find_month zero i d = (i, d)
find_month (suc fuel) i d =
    let later = find_month fuel (suc i) (d - month_len i) in
    if ltb d (month_len i) then (i, d) else later

-- The month and the day in it of a day; as no month is empty, the day itself is fuel enough.
unfoldable pub civil : ℕ → ℕ × ℕ
unfolding find_month
civil d = find_month d 0 d

-- `time.Date(year, month, 1, …)` of month i, in seconds.
abbrev pub first_of_month : ℕ → ℕ
first_of_month i = month_start i * seconds_per_day

-- `Weekday`: day 0 was a Thursday, and Sunday is 0.
unfoldable pub weekday : ℕ → ℕ
weekday d = (d + 4) % 7

-- The Thursday of the week, from Monday to Sunday.
unfoldable pub thursday : ℕ → ℕ
unfolding weekday
thursday d = if eqb (weekday d) 0 then d - 3 else d + 4 - weekday d

-- `ISOWeek`: the year of the Thursday, and which Thursday of that year it is.
unfoldable pub iso_week : ℕ → ℕ × ℕ
unfolding civil thursday month_start
iso_week d =
    let th = thursday d in
    let y = (civil th).0 / 12 in (1970 + y, (th - month_start (12 * y)) / 7 + 1)
