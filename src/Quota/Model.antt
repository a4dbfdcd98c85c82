-- ===== src/Quota/Model.antt =====
-- domain/quota: windows, period keys, limits and the estimate of tokens. Times are unix seconds.
use Prim.Native.Char.{Char}
use Prim.Native.String.{String, ◌++◌}
use Prim.Native.String as Text
use oma_server.Common.{
  ℕ, suc, ◌+◌, ◌-◌, ◌*◌, ◌/◌, ◌%◌, Bool, ◌||◌, List, [], ◌∷◌, if◌then◌else◌, ltb, eqb, ℤ, clamp_pos,
  decimal, padded,
}
use oma_server.Quota.Calendar.{
  seconds_per_day, civil, year_of, month_of, first_of_month, weekday, iso_week,
}

pub data Window : Type 0 where
  daily weekly monthly : Window

unfoldable pub label : Window → String
label Window.daily = "daily"
label Window.weekly = "weekly"
label Window.monthly = "monthly"

abbrev pub windows : List Window
windows = Window.daily ∷ Window.weekly ∷ Window.monthly ∷ []

abbrev pub day_of : ℕ → ℕ
day_of t = t / seconds_per_day

-- `(8 - weekday) % 7`, and 7 in place of 0.
unfoldable pub days_to_monday : ℕ → ℕ
unfolding weekday
days_to_monday d = let offset = (8 - weekday d) % 7 in if eqb offset 0 then 7 else offset

unfoldable pub reset_after : Window → ℕ → ℕ
unfolding days_to_monday civil
reset_after Window.daily t = (day_of t + 1) * seconds_per_day
reset_after Window.weekly t = (day_of t + days_to_monday (day_of t)) * seconds_per_day
reset_after Window.monthly t = first_of_month (suc (civil (day_of t)).0)

-- `2006-01`, of a month counted from January 1970.
unfoldable pub month_key : ℕ → String
month_key i = decimal (year_of i) ++ "-" ++ padded (month_of i)

-- `2006-W02`, of a year and its week.
unfoldable pub week_key : ℕ × ℕ → String
week_key (y, week) = decimal y ++ "-W" ++ padded week

-- `2006-01-02`, of a month and a day in it, counted from 0.
unfoldable pub date_key : ℕ × ℕ → String
unfolding month_key
date_key (i, d) = month_key i ++ "-" ++ padded (d + 1)

unfoldable pub period_key : Window → ℕ → String
unfolding month_key week_key date_key iso_week civil
period_key Window.daily t = date_key (civil (day_of t))
period_key Window.weekly t = week_key (iso_week (day_of t))
period_key Window.monthly t = month_key (civil (day_of t)).0

-- Limits, or what was used; 0 is unlimited, or unused. A request has them as integers, the table
-- as natural numbers.
pub record Limits (N : Type 0) : Type 0 where
  pub day : N
  pub week : N
  pub month : N

unfoldable pub limit_of : {N : Type 0} → Window → Limits N → N
limit_of Window.daily l = l.day
limit_of Window.weekly l = l.week
limit_of Window.monthly l = l.month

-- `*l = v` at the place of the window.
unfoldable pub set_limit : {N : Type 0} → Window → N → Limits N → Limits N
set_limit Window.daily v l = record l { day = v }
set_limit Window.weekly v l = record l { week = v }
set_limit Window.monthly v l = record l { month = v }

abbrev pub no_limits : Limits ℕ
no_limits = record { day = 0; week = 0; month = 0 }

unfoldable pub clamp : Limits ℤ → Limits ℕ
clamp l = record { day = clamp_pos l.day; week = clamp_pos l.week; month = clamp_pos l.month }

unfoldable pub pick : ℕ → ℕ → ℕ
pick member def = if ltb 0 member then member else def

pub record ExceededError : Type 0 where
  pub window : Window
  pub used : ℕ
  pub limit : ℕ
  pub period : String
  pub reset_utc : ℕ

pub record PeriodKeys : Type 0 where
  pub day : String
  pub week : String
  pub month : String

unfoldable pub keys_at : ℕ → PeriodKeys
keys_at t = record {
  day = period_key Window.daily t;
  week = period_key Window.weekly t;
  month = period_key Window.monthly t;
}

-- The share in percent is left out; `unlimited` is `limit <= 0`.
pub record WindowStatus : Type 0 where
  pub window : Window
  pub limit : ℕ
  pub used : ℕ
  pub remaining : ℕ
  pub unlimited : Bool

pub record Status : Type 0 where
  pub period : PeriodKeys
  pub rows : List WindowStatus

-- The tables of Go's package unicode that `isCJK` asks.
pub record Scripts : Type 0 where
  pub han : Char → Bool
  pub hangul : Char → Bool
  pub hiragana : Char → Bool
  pub katakana : Char → Bool

unfoldable pub is_cjk : Scripts → Char → Bool
is_cjk s r = s.han r || s.hangul r || s.hiragana r || s.katakana r

-- The loop of `EstimateTokens`: how many characters are CJK, and how many are not.
unfoldable pub count_cjk : Scripts → String → ℕ × ℕ
count_cjk s Text.[] = (0, 0)
count_cjk s (Text.◌∷◌ r text) =
    let (cjk, other) = count_cjk s text in if is_cjk s r then (cjk + 1, other) else (cjk, other + 1)

unfoldable pub estimate_tokens : Scripts → String → ℕ
unfolding count_cjk
estimate_tokens s text = let (cjk, other) = count_cjk s text in cjk + (other + 3) / 4
