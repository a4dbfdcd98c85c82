-- ===== src/Quota/Periods.antt =====
-- `PeriodKey` and `ResetAfter` agree: a period goes on until the reset and no longer.
use oma_server.Common.{ℕ, suc, ◌+◌, ◌-◌, ◌*◌, ◌/◌, ◌≤◌, ◌<◌, ◌≡◌, sym, ap, ◌∙◌, arith}
use oma_server.Quota.Calendar.{seconds_per_day, civil, month_start, weekday, thursday, iso_week}
use oma_server.Quota.Calendar.Months.{month_len_pos, IsIn, civil-IsIn, IsIn-unique}
use oma_server.Quota.Model.{
  Window, day_of, days_to_monday, reset_after, period_key, month_key, week_key, date_key,
}

-- Which day, which week or which month it is.
unfoldable pub period_index : Window → ℕ → ℕ
period_index Window.daily t = day_of t
period_index Window.weekly t = (day_of t + 3) / 7
period_index Window.monthly t = (civil (day_of t)).0

pub thursday_lem : (d : ℕ) → thursday d ≡ 7 * ((d + 3) / 7)
unfolding thursday weekday
thursday_lem d = ground arith

civil_eq : (i d : ℕ) → IsIn i d → (civil d).0 ≡ i
civil_eq i d h = IsIn-unique (civil d).0 i d (civil-IsIn d).0 h

iso_week_eq : (c d : ℕ) → thursday c ≡ thursday d → iso_week c ≡ iso_week d
unfolding iso_week
iso_week_eq c d h =
    ap (λ th. let y = (civil th).0 / 12 in (1970 + y, (th - month_start (12 * y)) / 7 + 1)) h

-- The key tells nothing but which day, week or month it is.
pub key_of_index :
    (w : Window) (c t : ℕ) → period_index w c ≡ period_index w t → period_key w c ≡ period_key w t
unfolding period_index period_key
key_of_index Window.daily c t h = ap (λ d. date_key (civil d)) h
key_of_index Window.weekly c t h = ap week_key (
    iso_week_eq (day_of c) (day_of t)
      (thursday_lem (day_of c) ∙ ap (λ k. 7 * k) h ∙ sym (thursday_lem (day_of t))))
key_of_index Window.monthly c t h = ap month_key h

month_start_lt : (i : ℕ) → month_start i < month_start (suc i)
unfolding month_start
month_start_lt i = let p = month_len_pos i in omega arith

first-IsIn : (i : ℕ) → IsIn i (day_of (month_start i * seconds_per_day))
first-IsIn i = let p = month_start_lt i in record { from = omega arith; until = omega arith }

pub index-reset : (w : Window) (t : ℕ) → period_index w (reset_after w t) ≡ suc (period_index w t)
unfolding period_index reset_after days_to_monday weekday
index-reset Window.daily t = omega arith
index-reset Window.weekly t = ground arith
index-reset Window.monthly t = civil_eq (suc (civil (day_of t)).0) _ (first-IsIn _)

pub reset-later : (w : Window) (t : ℕ) → t < reset_after w t
unfolding reset_after days_to_monday weekday
reset-later Window.daily t = omega arith
reset-later Window.weekly t = ground arith
reset-later Window.monthly t = let h = (civil-IsIn (day_of t)).0.until in omega arith

pub index-until :
    (w : Window) (c t : ℕ) → t ≤ c → c < reset_after w t → period_index w c ≡ period_index w t
unfolding period_index reset_after days_to_monday weekday
index-until Window.daily c t h l = omega arith
index-until Window.weekly c t h l = ground arith
index-until Window.monthly c t h l =
    let i = (civil-IsIn (day_of t)).0 in
    let low = i.from in
    let high = i.until in civil_eq _ (day_of c) (record { from = omega arith; until = omega arith })
