-- ===== src/Quota/Tables.antt =====
-- adapter/out/db/quota_repository.go: the three tables under their statements.
use oma_server.Common.{
  ℕ, ◌+◌, Bool, true, false, not, ◌&&◌, ◌||◌, String, List, [], ◌∷◌, Option, none, some,
  if◌then◌else◌, ltb, eqb, ◌==◌, contains, Map, insert, lookup, Result, ok, err, Action, World,
  ◌>>=◌, pure, statement, Driver,
}
use oma_server.Quota.Model.{Limits, no_limits}

-- A row of `token_usage`, whose key is the member with the period.
pub record Usage : Type 0 where
  pub member_id : String
  pub period : String
  pub used : ℕ

-- `limits` is `member_token_limits`, by member; `defaults` is the row of `quota_config` with id 1.
pub record Tables : Type 0 where
  pub usage : List Usage
  pub limits : Map (Limits ℕ)
  pub defaults : Option (Limits ℕ)

-- One row of the upsert.
unfoldable pub add_row : String → String → ℕ → List Usage → List Usage
add_row m p n [] = record { member_id = m; period = p; used = n } ∷ []
add_row m p n (u ∷ us) =
    if u.member_id == m && u.period == p
    then record u { used = u.used + n } ∷ us
    else u ∷ add_row m p n us

unfoldable pub add_rows : String → ℕ → List String → List Usage → List Usage
add_rows m n [] us = us
add_rows m n (p ∷ ps) us = add_rows m n ps (add_row m p n us)

-- `UsageForPeriods`: the rows come in any order, and no key has two.
unfoldable pub usage_for : String → List String → List Usage → Map ℕ
usage_for m ps [] = []
usage_for m ps (u ∷ us) =
    let others = usage_for m ps us in
    if u.member_id == m && contains ps u.period then insert u.period u.used others else others

-- `UsageByPeriodForMembers`
unfoldable pub usage_by : String → List String → List Usage → Map ℕ
usage_by p ms [] = []
usage_by p ms (u ∷ us) =
    let others = usage_by p ms us in
    if u.period == p && contains ms u.member_id then insert u.member_id u.used others else others

-- `ResetUsage`
unfoldable pub reset_rows : String → List Usage → List Usage
reset_rows m [] = []
reset_rows m (u ∷ us) = if u.member_id == m then reset_rows m us else u ∷ reset_rows m us

unfoldable pub or_none : Option (Limits ℕ) → Limits ℕ
or_none none = no_limits
or_none (some l) = l

-- `MemberLimits`
unfoldable pub member_limits : String → Tables → Limits ℕ
unfolding or_none
member_limits m t = or_none (lookup m t.limits)

unfoldable pub any_limit : Limits ℕ → Bool
any_limit l = ltb 0 l.day || ltb 0 l.week || ltb 0 l.month

-- `MemberLimitsByIDs`
unfoldable pub limits_by : List String → Map (Limits ℕ) → Map (Limits ℕ)
limits_by ms [] = []
limits_by ms ((m, l) ∷ rows) =
    if any_limit l && contains ms m then (m, l) ∷ limits_by ms rows else limits_by ms rows

-- `DefaultLimits`
unfoldable pub default_row : Tables → Limits ℕ
unfolding or_none
default_row t = or_none t.defaults

unfoldable pub same_limits : Limits ℕ → Limits ℕ → Bool
same_limits k l = eqb k.day l.day && eqb k.week l.week && eqb k.month l.month

-- Whether `RowsAffected` of an update of a row is above 0: MySQL does not count a row that the
-- update leaves as it was, unless the connection asks for that.
unfoldable pub counted : Driver → Option (Limits ℕ) → Limits ℕ → Bool
counted d none l = false
counted Driver.sqlite (some k) l = true
counted Driver.mysql (some k) l = not (same_limits k l)

-- The update of a row that may be there.
unfoldable pub replaced : Option (Limits ℕ) → Limits ℕ → Option (Limits ℕ)
replaced none l = none
replaced (some _) l = some l

-- The insertion, which fails where a row has the key.
unfoldable pub inserted :
    {E : Type 0}
    → E
    → (Tables → Option (Limits ℕ))
    → (Tables → Tables)
    → Tables
    → Result E (Unit {0}) × Tables
inserted down row put t = elim (row t) [ none ↦ (ok tt, put t) | some _ ↦ (err down, t) ]

module _ {E : Type 0} (down : E) (driver : Driver) where
  -- `SetMemberLimits`
  unfoldable pub save_limits : String → Limits ℕ → Action (World Tables) E (Unit {0})
  unfolding counted inserted
  save_limits m l = do
    changed ← statement down (λ t. (
      ok (counted driver (lookup m t.limits) l),
      elim (lookup m t.limits) [ none ↦ t | some _ ↦ record t { limits = insert m l t.limits } ],
    ))
    if changed
        then pure tt
        else statement down (
            inserted down (λ t. lookup m t.limits) (λ t. record t { limits = insert m l t.limits }))

  -- `SetDefaultLimits`
  unfoldable pub save_defaults : Limits ℕ → Action (World Tables) E (Unit {0})
  unfolding counted replaced inserted
  save_defaults l = do
    changed ←
        statement down
          (λ t. (ok (counted driver t.defaults l), record t { defaults = replaced t.defaults l }))
    if changed
        then pure tt
        else statement down (inserted down (λ t. t.defaults) (λ t. record t { defaults = some l }))
