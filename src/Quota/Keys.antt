-- ===== src/Quota/Keys.antt =====
-- Keys of different periods differ.
use Prim.Native.String.{len, ◌++◌}
use native.Mathlib.Decide.{le_ind}
use text.Mathlib.TextPositions.{len-append}
use oma_server.Common.{
  ℕ, suc, ◌+◌, ◌-◌, ◌*◌, ◌/◌, ◌≤◌, ◌<◌, ◌≡◌, ◌≢◌, refl, sym, ap, ◌∙◌, subst, arith, len-padded,
  len-decimal_four, decimal, padded, value, value-append, value-decimal, value-padded,
}
use oma_server.Quota.Calendar.{civil, month_start, thursday, iso_week, year_of, month_of}
use oma_server.Quota.Calendar.Months.{
  civil-IsIn, civil_small, civil_mono, month_start_mono, month_start_le,
}
use oma_server.Quota.Model.{Window, day_of, reset_after, period_key, month_key, week_key, date_key}
use oma_server.Quota.Periods.{
  period_index, thursday_lem, index-reset, reset-later, index-until, key_of_index,
}

value-month_key : (i : ℕ) → value 0 (month_key i) ≡ 1000 * year_of i + month_of i
unfolding month_key value
value-month_key i = ground (
  arith,
  value-append 0 (decimal (year_of i)) ("-" ++ padded (month_of i)),
  value-append (year_of i) "-" (padded (month_of i)),
  value-decimal (year_of i),
  value-padded (10 * year_of i) (month_of i),
)

value-date_key :
    (p : ℕ × ℕ)
    → p.1 < 31
    → value 0 (date_key p) ≡ 1000 * (1000 * year_of p.0 + month_of p.0) + p.1 + 1
unfolding date_key value
value-date_key (i, d) h = ground (
  arith,
  value-append 0 (month_key i) ("-" ++ padded (d + 1)),
  value-append (1000 * year_of i + month_of i) "-" (padded (d + 1)),
  value-month_key i,
  value-padded (10 * (1000 * year_of i + month_of i)) (d + 1),
)

value-week_key : (p : ℕ × ℕ) → p.1 < 100 → value 0 (week_key p) ≡ 10000 * p.0 + 3900 + p.1
unfolding week_key value
value-week_key (y, w) h = ground (
  arith,
  value-append 0 (decimal y) ("-W" ++ padded w),
  value-append y "-W" (padded w),
  value-decimal y,
  value-padded (100 * y + 39) w,
)

month_start_eq : (i j : ℕ) → i ≡ j → month_start i ≡ month_start j
month_start_eq i j = ap month_start

-- A later day has a larger date.
date_lt : (d : ℕ) → value 0 (date_key (civil d)) < value 0 (date_key (civil (suc d)))
unfolding month_start
date_lt d =
    let here = (civil-IsIn d).1 in
    let next = (civil-IsIn (suc d)).1 in
    let mono = civil_mono d (suc d) (omega arith) in
    let small = civil_small d in
    let value_here = value-date_key (civil d) (civil_small d) in
    let value_next = value-date_key (civil (suc d)) (civil_small (suc d)) in
    grind (arith, month_start_eq (civil d).0 (civil (suc d)).0)

-- The Thursdays of a year are fewer than a hundred, and start with its first week.
week_bounds :
    (th : ℕ)
    → let first = month_start (12 * ((civil th).0 / 12)) in
      (first ≤ th) × ((th - first) / 7 + 1 < 100)
week_bounds th =
    let from = (civil-IsIn th).0.from in
    let until = (civil-IsIn th).0.until in
    let y = (civil th).0 / 12 in
    let low = month_start_mono (12 * y) (civil th).0 (omega arith) in
    let high = month_start_mono (suc (civil th).0) (12 + 12 * y) (omega arith) in
    let year = month_start_le (12 * y) (12 + 12 * y) (omega arith) in (omega arith, omega arith)

-- The week of the year, as ISO has it, of a Thursday.
week_of : ℕ → ℕ × ℕ
unfolding iso_week
week_of th = let y = (civil th).0 / 12 in (1970 + y, (th - month_start (12 * y)) / 7 + 1)

iso_week_lem : (d : ℕ) → iso_week d ≡ week_of (thursday d)
unfolding iso_week week_of
iso_week_lem d = refl

week_of_lt : (th : ℕ) → value 0 (week_key (week_of th)) < value 0 (week_key (week_of (7 + th)))
unfolding week_of
week_of_lt th =
    let (low, small) = week_bounds th in
    let (low', small') = week_bounds (7 + th) in
    let here = value-week_key (week_of th) small in
    let next = value-week_key (week_of (7 + th)) small' in
    let mono = civil_mono th (7 + th) (omega arith) in
    grind (arith, month_start_eq (12 * ((civil th).0 / 12)) (12 * ((civil (7 + th)).0 / 12)))

-- The number that the key of a period reads as, by the index of the period.
index_value : Window → ℕ → ℕ
index_value Window.daily k = value 0 (date_key (civil k))
index_value Window.weekly k = value 0 (week_key (week_of (7 * k)))
index_value Window.monthly k = value 0 (month_key k)

value-period_key :
    (w : Window) (t : ℕ) → value 0 (period_key w t) ≡ index_value w (period_index w t)
unfolding period_key period_index index_value
value-period_key Window.daily t = refl
value-period_key Window.weekly t =
    ap (λ p. value 0 (week_key p)) (iso_week_lem (day_of t) ∙ ap week_of (thursday_lem (day_of t)))
value-period_key Window.monthly t = refl

index_value-suc : (w : Window) (k : ℕ) → index_value w k < index_value w (suc k)
unfolding index_value
index_value-suc Window.daily k = date_lt k
index_value-suc Window.weekly k =
    subst (λ m. value 0 (week_key (week_of (7 * k))) < value 0 (week_key (week_of m))) (omega arith)
      (week_of_lt (7 * k))
index_value-suc Window.monthly k =
    let here = value-month_key k in let next = value-month_key (suc k) in omega arith

index_value_mono : (w : Window) (k m : ℕ) → k ≤ m → m + index_value w k ≤ k + index_value w m
index_value_mono w k m h =
    le_ind (λ m. m + index_value w k ≤ k + index_value w m) (omega arith)
      (λ m le ih. let step = index_value-suc w m in omega (arith, ih, le)) m h

index_unique : (w : Window) (k m : ℕ) → index_value w k ≡ index_value w m → k ≡ m
index_unique w k m h = grind (arith, index_value_mono w k m, index_value_mono w m k)

-- The years in the keys of a time have four digits.
pub record HasFourDigits (t : ℕ) : Type 0 where
  pub year : year_of (civil (day_of t)).0 < 10000
  pub week_year : (iso_week (day_of t)).0 < 10000

key_len : Window → ℕ
key_len Window.daily = 10
key_len Window.weekly = 8
key_len Window.monthly = 7

len-month_key : (i : ℕ) → year_of i < 10000 → len (month_key i) ≡ 7
unfolding month_key
len-month_key i h = ground (
  arith,
  len-append (decimal (year_of i)) ("-" ++ padded (month_of i)),
  len-append "-" (padded (month_of i)),
  len-decimal_four (year_of i),
  len-padded (month_of i),
)

len-week_key : (p : ℕ × ℕ) → 1000 ≤ p.0 → p.0 < 10000 → p.1 < 100 → len (week_key p) ≡ 8
unfolding week_key
len-week_key (y, w) l h k = ground (
  arith,
  len-append (decimal y) ("-W" ++ padded w),
  len-append "-W" (padded w),
  len-decimal_four y,
  len-padded w,
)

len-date_key : (p : ℕ × ℕ) → year_of p.0 < 10000 → p.1 < 31 → len (date_key p) ≡ 10
unfolding date_key
len-date_key (i, d) h k = ground (
  arith,
  len-append (month_key i) ("-" ++ padded (d + 1)),
  len-append "-" (padded (d + 1)),
  len-month_key i,
  len-padded (d + 1),
)

len-period_key : (w : Window) (t : ℕ) → HasFourDigits t → len (period_key w t) ≡ key_len w
unfolding period_key key_len iso_week
len-period_key Window.daily t h = len-date_key (civil (day_of t)) h.year (civil_small (day_of t))
len-period_key Window.weekly t h =
    len-week_key (iso_week (day_of t)) (omega arith) h.week_year
      (week_bounds (thursday (day_of t))).1
len-period_key Window.monthly t h = len-month_key (civil (day_of t)).0 h.year

key_len_unique : (w v : Window) → key_len w ≡ key_len v → w ≡ v
unfolding key_len
key_len_unique Window.daily Window.daily h = refl
key_len_unique Window.daily Window.weekly h = absurd (omega arith)
key_len_unique Window.daily Window.monthly h = absurd (omega arith)
key_len_unique Window.weekly Window.daily h = absurd (omega arith)
key_len_unique Window.weekly Window.weekly h = refl
key_len_unique Window.weekly Window.monthly h = absurd (omega arith)
key_len_unique Window.monthly Window.daily h = absurd (omega arith)
key_len_unique Window.monthly Window.weekly h = absurd (omega arith)
key_len_unique Window.monthly Window.monthly h = refl

pub key-index :
    (w : Window) (c t : ℕ) → period_key w c ≡ period_key w t → period_index w c ≡ period_index w t
key-index w c t h =
    index_unique w _ _ (sym (value-period_key w c) ∙ ap (value 0) h ∙ value-period_key w t)

-- A key names one period: while the years have four digits, equal keys are of the same kind of
-- window and of the same day, week or month.
pub period_key_unique :
    (w v : Window) (c t : ℕ)
    → HasFourDigits c
    → HasFourDigits t
    → period_key w c ≡ period_key v t
    → (w ≡ v) × (period_index w c ≡ period_index v t)
period_key_unique w v c t hc ht e =
    let same =
      key_len_unique w v (sym (len-period_key w c hc) ∙ ap len e ∙ len-period_key v t ht) in
    (
      same,
      subst (λ x. period_key w c ≡ period_key x t → period_index w c ≡ period_index x t) same
          (key-index w c t) e,
    )

-- A window counts under one key from any moment on until its reset; the reset comes later than the
-- moment, is where the next day, week or month begins, and changes the key.
pub period_key-reset_after :
    (w : Window) (c t : ℕ)
    → t ≤ c
    → c < reset_after w t
    → (period_key w c ≡ period_key w t)
      × (t < reset_after w t)
      × (period_index w (reset_after w t) ≡ suc (period_index w t))
      × (period_key w (reset_after w t) ≢ period_key w t)
period_key-reset_after w c t h l = (
  key_of_index w c t (index-until w c t h l),
  reset-later w t,
  index-reset w t,
  λ e. let same = key-index w (reset_after w t) t e in let next = index-reset w t in omega arith,
)
