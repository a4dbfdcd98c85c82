-- ===== src/Quota/Calendar/Months.antt =====
-- The search for the month of a day ends within its fuel and finds the one month that holds it.
use oma_server.Common.{ℕ, zero, suc, ◌+◌, ◌-◌, ◌*◌, ◌≤◌, ◌<◌, ◌≡◌, arith}
use native.Mathlib.Decide.{le_ind}
use native.Mathlib.Nat.{le_refl}
use oma_server.Quota.Calendar.{month_len, month_start, find_month, civil, is_leap}

pub month_len_pos : (i : ℕ) → 0 < month_len i
unfolding month_len is_leap
month_len_pos i = ground arith

month_len_small : (i : ℕ) → month_len i ≤ 31
unfolding month_len is_leap
month_len_small i = ground arith

pub month_start_le : (i j : ℕ) → i ≤ j → month_start j ≤ month_start i + 31 * (j - i)
unfolding month_start
month_start_le i j h =
    le_ind (λ m. month_start m ≤ month_start i + 31 * (m - i)) (omega arith)
      (λ m le ih. let p = month_len_small m in omega (arith, ih, le)) j h

-- Month i holds day d.
pub record IsIn (i d : ℕ) : Type 0 where
  pub from : month_start i ≤ d
  pub until : d < month_start (suc i)

find_month_lem :
    (fuel i d n : ℕ)
    → d ≤ fuel
    → month_start i + d ≡ n
    → IsIn (find_month fuel i d).0 n
      × (month_start (find_month fuel i d).0 + (find_month fuel i d).1 ≡ n)
unfolding find_month month_start
find_month_lem zero i d n h e =
    let p = month_len_pos i in (record { from = omega arith; until = omega arith }, e)
find_month_lem (suc f) i d n h e =
    ground (arith, month_len_pos i, find_month_lem f (suc i) (d - month_len i) n)

pub month_start_mono : (i j : ℕ) → i ≤ j → month_start i ≤ month_start j
unfolding month_start
month_start_mono i j h =
    le_ind (λ m. month_start i ≤ month_start m) (le_refl _) (λ m le ih. omega (arith, ih)) j h

-- The month that the search finds for a day, with the day itself as fuel, is the one that holds the
-- day, and the second part is the place of the day in it.
pub civil-IsIn : (d : ℕ) → IsIn (civil d).0 d × (month_start (civil d).0 + (civil d).1 ≡ d)
unfolding civil month_start
civil-IsIn d = find_month_lem d 0 d d (le_refl _) (omega arith)

pub IsIn-unique : (i j d : ℕ) → IsIn i d → IsIn j d → i ≡ j
IsIn-unique i j d a b =
    let af = a.from in
    let au = a.until in
    let bf = b.from in
    let bu = b.until in grind (arith, month_start_mono (suc i) j, month_start_mono (suc j) i)

pub civil_small : (d : ℕ) → (civil d).1 < 31
unfolding month_start
civil_small d =
    let (h, e) = civil-IsIn d in
    let until = h.until in let p = month_len_small (civil d).0 in omega arith

-- Months go on with the days.
pub civil_mono : (c d : ℕ) → c ≤ d → (civil c).0 ≤ (civil d).0
civil_mono c d h =
    let from = (civil-IsIn c).0.from in
    let until = (civil-IsIn d).0.until in
    grind (arith, month_start_mono (suc (civil d).0) (civil c).0)
