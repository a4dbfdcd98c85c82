-- ===== src/Quota/Settings.antt =====
-- What setting limits does, and what a status shows.
use oma_server.Common.{
  Driver, ℕ, ◌-◌, ◌≡◌, refl, true, ◌||◌, String, [], map, none, some, if◌then◌else◌, ltb, leb, ◌==◌,
  ℤ, fails, spent, arith, ok, err, lookup, ap, ◌∙◌, subst, lookup-insert, contains, inl, inr,
  Result-cases, Bool-cases,
}
use oma_server.Quota.Model.{
  Limits, Window, Status, WindowStatus, windows, limit_of, clamp, period_key, keys_at,
}
use oma_server.Quota.Tables.{
  Tables, save_limits, save_defaults, inserted, counted, replaced, same_limits, or_none,
  member_limits, default_row, usage_for,
}
use oma_server.Quota.Service.{
  Quotas, Gate, set_default_limits, set_member_limits, fresh, picked, status, status_row, seconds,
  all_keys, effective_limits, db_error,
}
use oma_server.Quota.Usage.{count-usage_for}
use oma_server.Quota.Enforcement.{used_in, within}
use oma_server.Quota.Checks.{limits_now, effective_limits-tables, effective_limits_eq}

-- New default limits that were set are what every member without own limits has from then on,
-- whatever was cached before; no member's own limits change.
pub set_default_limits-limits_now :
    (gate : Gate) (driver : Driver) (actor m : String) (l : Limits ℤ) (now : ℕ) (s : Quotas)
    → (set_default_limits gate driver actor l s).0 ≡ ok tt
    → limits_now now m (set_default_limits gate driver actor l s).1
      ≡ picked (member_limits m s.db.tables) (clamp l)
unfolding set_default_limits save_defaults inserted replaced limits_now fresh default_row or_none
    member_limits counted
set_default_limits-limits_now gate d actor m l now s h = ground arith

-- Limits of a member that were set are those that the member has, at least 0 each; the limits of
-- the others are as before.
pub set_member_limits-member_limits :
    (gate : Gate) (driver : Driver) (actor k m : String) (l : Limits ℤ) (s : Quotas)
    → (set_member_limits gate driver actor k l s).0 ≡ ok tt
    → member_limits m (set_member_limits gate driver actor k l s).1.db.tables
      ≡ (if k == m then clamp l else member_limits m s.db.tables)
unfolding set_member_limits save_limits inserted member_limits or_none counted
set_member_limits-member_limits gate d actor k m l s h =
    let rows = s.db.tables.limits in
    elim (Bool-cases (k == m)) [
      | inl same ↦
          ground (arith, lookup-insert k m (clamp l) rows, lookup-insert k k (clamp l) rows)
      | inr other ↦
          ground (arith, lookup-insert k m (clamp l) rows, lookup-insert k k (clamp l) rows)
    ]

same_limits_refl : (l : Limits ℕ) → same_limits l l ≡ true
unfolding same_limits
same_limits_refl l = ground arith

-- Limits that are set again to what they are: under SQLite the call succeeds, under MySQL, which
-- does not count the row as updated, it fails.
pub set_member_limits-again :
    (gate : Gate) (driver : Driver) (actor m : String) (l : Limits ℤ) (s : Quotas)
    → gate actor ≡ none
    → s.db.faults ≡ []
    → lookup m s.db.tables.limits ≡ some (clamp l)
    → (set_member_limits gate driver actor m l s).0
      ≡ elim driver [ Driver.sqlite ↦ ok tt | Driver.mysql ↦ err db_error ]
unfolding set_member_limits save_limits inserted counted fails spent
set_member_limits-again gate Driver.sqlite actor m l s g f h = ground arith
set_member_limits-again gate Driver.mysql actor m l s g f h =
    ground (arith, same_limits_refl (clamp l), lookup-insert m m (clamp l) s.db.tables.limits)

-- A row of a status by the table.
unfoldable pub shown : Limits ℕ → (Window → ℕ) → Window → WindowStatus
shown l used w = record {
  window = w;
  limit = limit_of w l;
  used = used w;
  remaining = limit_of w l - used w;
  unlimited = leb (limit_of w l) 0;
}

status_row-shown :
    (m : String) (t : ℕ) (l : Limits ℕ) (s : Quotas) (w : Window)
    → status_row t l (usage_for m (all_keys t) s.db.tables.usage) w ≡ shown l (used_in m t s) w
unfolding status_row shown used_in contains
status_row-shown m t l s Window.daily =
    ground (arith, count-usage_for m (period_key Window.daily t) (all_keys t) s.db.tables.usage)
status_row-shown m t l s Window.weekly =
    ground (arith, count-usage_for m (period_key Window.weekly t) (all_keys t) s.db.tables.usage)
status_row-shown m t l s Window.monthly =
    ground (arith, count-usage_for m (period_key Window.monthly t) (all_keys t) s.db.tables.usage)

within-shown :
    (l : Limits ℕ) (used : Window → ℕ) (w : Window)
    → within l used w ≡ ((shown l used w).unlimited || ltb 0 (shown l used w).remaining)
unfolding within shown
within-shown l used w = ground arith

rows_shown :
    (m : String) (t : ℕ) (l : Limits ℕ) (s : Quotas) (tables : Tables)
    → tables ≡ s.db.tables
    → map (status_row t l (usage_for m (all_keys t) tables.usage)) windows
      ≡ map (shown l (used_in m t s)) windows
rows_shown m t l s tables h =
    ap (λ x. map (status_row t l (usage_for m (all_keys t) x.usage)) windows) h
    ∙ rw
        (
          status_row-shown m t l s Window.daily,
          status_row-shown m t l s Window.weekly,
          status_row-shown m t l s Window.monthly,
        )
        refl

-- A status shows, under the keys of the time, the windows by their order with the member's limits
-- and what the table has for them.
pub status-shown :
    (now : ℕ) (m : String) (s : Quotas) (st : Status)
    → (status now m s).0 ≡ ok st
    → (st.period ≡ keys_at (seconds now))
      × (st.rows ≡ map (shown (limits_now now m s) (used_in m (seconds now) s)) windows)
unfolding status
status-shown now m s st h =
    let t = seconds now in
    elim (Result-cases (effective_limits now m s).0) [
      | inr (e, k) ↦ absurd (ground arith)
      | inl (l, k) ↦
          let rows =
            rows_shown m t l s (effective_limits now m s).1.db.tables
              (effective_limits-tables now m s) in
          subst (λ x. (st.period ≡ keys_at t) × (st.rows ≡ map (shown x (used_in m t s)) windows))
            (effective_limits_eq now m s l k) (ground arith)
    ]
