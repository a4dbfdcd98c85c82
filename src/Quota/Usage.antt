-- ===== src/Quota/Usage.antt =====
-- What the rows of `token_usage` say, and how the upsert and the reset change it.
use oma_server.Common.{
  ℕ, suc, ◌+◌, ◌≡◌, refl, false, ◌&&◌, String, List, [], ◌∷◌, if◌then◌else◌, ◌==◌, contains, lookup,
  lookup-insert, arith,
}
use oma_server.Quota.Tables.{Usage, add_row, add_rows, usage_for, reset_rows}
use oma_server.Quota.Service.{count}

-- What a member has used in a period.
unfoldable pub used_of : String → String → List Usage → ℕ
used_of m p [] = 0
used_of m p (u ∷ us) = if u.member_id == m && u.period == p then u.used else used_of m p us

pub used_of-add_row :
    (m p k q : String) (n : ℕ) (us : List Usage)
    → used_of m p (add_row k q n us)
      ≡ (if k == m && q == p then used_of m p us + n else used_of m p us)
unfolding used_of add_row
used_of-add_row m p k q n [] = ground arith
used_of-add_row m p k q n (u ∷ us) = ground (arith, used_of-add_row m p k q n us)

-- How often a key stands in a list.
unfoldable pub times : String → List String → ℕ
times p [] = 0
times p (q ∷ qs) = if q == p then suc (times p qs) else times p qs

used_of-add_rows_other :
    (m p k : String) (n : ℕ) (qs : List String) (us : List Usage)
    → contains qs p ≡ false
    → used_of m p (add_rows k n qs us) ≡ used_of m p us
unfolding contains add_rows
used_of-add_rows_other m p k n [] us h = refl
used_of-add_rows_other m p k n (q ∷ qs) us h =
    ground
      (arith, used_of-add_rows_other m p k n qs (add_row k q n us), used_of-add_row m p k q n us)

pub used_of-reset_rows :
    (m p k : String) (us : List Usage)
    → used_of m p (reset_rows k us) ≡ (if k == m then 0 else used_of m p us)
unfolding used_of reset_rows
used_of-reset_rows m p k [] = ground arith
used_of-reset_rows m p k (u ∷ us) = ground (arith, used_of-reset_rows m p k us)

-- `usage[period]` of the map that the query returns is what the table has for the period.
pub count-usage_for :
    (m p : String) (ps : List String) (us : List Usage)
    → count p (usage_for m ps us) ≡ (if contains ps p then used_of m p us else 0)
unfolding count usage_for used_of lookup
count-usage_for m p ps [] = ground arith
count-usage_for m p ps (u ∷ us) =
    ground (arith, count-usage_for m p ps us, lookup-insert u.period p u.used (usage_for m ps us))
