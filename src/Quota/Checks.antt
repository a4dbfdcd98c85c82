-- ===== src/Quota/Checks.antt =====
-- `Check` as a whole: whom it lets through and whom it refuses.
use oma_server.Common.{
  ℕ, ◌<◌, ◌≤◌, ◌≡◌, ◌⊎◌, ◌≢◌, subst, true, false, String, [], none, some, is_empty, inl, inr, ok,
  err, Result-cases, Bool-cases, fails, spent, arith,
}
use oma_server.Quota.Model.{
  Window, Limits, ExceededError, windows, limit_of, period_key, reset_after,
}
use oma_server.Quota.Tables.{member_limits, default_row}
use oma_server.Quota.Service.{
  Quotas, QuotaError, exceeded, effective_limits, default_limits, load_defaults, fresh, picked,
  check, enforce, limited, seconds,
}
use oma_server.Quota.Enforcement.{
  used_in, first_over, all_within, within, answer, enforce_lem, unlimited,
}

-- The limits of a member by the tables and the cache.
unfoldable pub limits_now : ℕ → String → Quotas → Limits ℕ
limits_now now m s =
    picked (member_limits m s.db.tables)
      (elim (fresh now s.cache) [ some l ↦ l | none ↦ default_row s.db.tables ])

default_limits-tables : (now : ℕ) (s : Quotas) → (default_limits now s).1.db.tables ≡ s.db.tables
unfolding default_limits load_defaults fresh
default_limits-tables now s = ground arith

pub effective_limits-tables :
    (now : ℕ) (m : String) (s : Quotas) → (effective_limits now m s).1.db.tables ≡ s.db.tables
unfolding effective_limits default_limits load_defaults
effective_limits-tables now m s = ground arith

pub effective_limits_eq :
    (now : ℕ) (m : String) (s : Quotas) (l : Limits ℕ)
    → (effective_limits now m s).0 ≡ ok l
    → l ≡ limits_now now m s
unfolding effective_limits default_limits load_defaults limits_now
effective_limits_eq now m s l h = ground arith

-- A check that comes to an answer.
check-answer :
    (now : ℕ) (m : String) (s : Quotas) (l : Limits ℕ)
    → (effective_limits now m s).0 ≡ ok l
    → (fails (effective_limits now m s).1.db ≡ false)
    → (check now m s).0
      ≡ answer
          (seconds now)
          l
          (used_in m (seconds now) s)
          (first_over l (used_in m (seconds now) s) windows)
unfolding check answer used_in
check-answer now m s l h k =
    let t = seconds now in
    ground (
      arith,
      effective_limits-tables now m s,
      enforce_lem m t l (effective_limits now m s).1 windows,
      unlimited t l (used_in m t s),
    )

check_unread :
    (now : ℕ) (m : String) (s : Quotas) (e : QuotaError)
    → (effective_limits now m s).0 ≡ err e
    → (check now m s).0 ≡ err QuotaError.db_error
unfolding check effective_limits default_limits load_defaults
check_unread now m s e h = ground arith

check_half_read :
    (now : ℕ) (m : String) (s : Quotas) (l : Limits ℕ)
    → (effective_limits now m s).0 ≡ ok l
    → l ≡ limits_now now m s
    → fails (effective_limits now m s).1.db ≡ true
    → ((check now m s).0
        ≡ answer
            (seconds now)
            (limits_now now m s)
            (used_in m (seconds now) s)
            (first_over (limits_now now m s) (used_in m (seconds now) s) windows))
      ⊎ ((check now m s).0 ≡ err QuotaError.db_error)
unfolding check answer
check_half_read now m s l h e k = elim (Bool-cases (is_empty (limited (seconds now) l windows))) [
  | inl none_limited ↦
      let free = unlimited (seconds now) l (used_in m (seconds now) s) none_limited in
      inl (ground arith)
  | inr some_limited ↦ inr (ground arith)
]

-- What every check says, whichever statements fail.
check_cases :
    (now : ℕ) (m : String) (s : Quotas)
    → ((check now m s).0
        ≡ answer
            (seconds now)
            (limits_now now m s)
            (used_in m (seconds now) s)
            (first_over (limits_now now m s) (used_in m (seconds now) s) windows))
      ⊎ ((check now m s).0 ≡ err QuotaError.db_error)
check_cases now m s = elim (Result-cases (effective_limits now m s).0) [
  | inr (e, h) ↦ inr (check_unread now m s e h)
  | inl (l, h) ↦ elim (Bool-cases (fails (effective_limits now m s).1.db)) [
    | inl k ↦ check_half_read now m s l h (effective_limits_eq now m s l h) k
    | inr k ↦ inl (
        subst
          (λ x.
            (check now m s).0
            ≡ answer (seconds now) x (used_in m (seconds now) s)
                (first_over x (used_in m (seconds now) s) windows))
          (effective_limits_eq now m s l h) (check-answer now m s l h k))
  ]
]

first_over-all_within :
    (l : Limits ℕ) (used : Window → ℕ) → first_over l used windows ≡ none → all_within l used ≡ true
unfolding first_over all_within within
first_over-all_within l used h = ground arith

within-first_over :
    (l : Limits ℕ) (used : Window → ℕ) → all_within l used ≡ true → first_over l used windows ≡ none
unfolding first_over all_within within
within-first_over l used h = ground arith

-- What a refusal says is so: the window is the first that is exceeded, by the limits of the
-- member and what the table says was used, and the rest of the message is of that window.
pub record Refuses (now : ℕ) (m : String) (s : Quotas) (e : ExceededError) : Type 0 where
  pub first : first_over (limits_now now m s) (used_in m (seconds now) s) windows ≡ some e.window
  pub limit : e.limit ≡ limit_of e.window (limits_now now m s)
  pub limited : 0 < e.limit
  pub used : e.used ≡ used_in m (seconds now) s e.window
  pub over : e.limit ≤ e.used
  pub period : e.period ≡ period_key e.window (seconds now)
  pub reset : e.reset_utc ≡ reset_after e.window (seconds now)

pub check-Refuses :
    (now : ℕ) (m : String) (s : Quotas) (e : ExceededError)
    → (check now m s).0 ≡ err (exceeded e)
    → Refuses now m s e
unfolding answer first_over within
check-Refuses now m s e h =
    let c = check_cases now m s in
    record {
      first = ground arith;
      limit = ground arith;
      limited = ground arith;
      used = ground arith;
      over = ground arith;
      period = ground arith;
      reset = ground arith;
    }

pub check-all_within :
    (now : ℕ) (m : String) (s : Quotas)
    → (check now m s).0 ≡ ok tt
    → all_within (limits_now now m s) (used_in m (seconds now) s) ≡ true
unfolding answer first_over within all_within
check-all_within now m s h = let c = check_cases now m s in ground arith

no_fault :
    (now : ℕ) (m : String) (s : Quotas)
    → s.db.faults ≡ []
    → (check now m s).0 ≢ err QuotaError.db_error
unfolding check effective_limits default_limits load_defaults fails spent enforce
no_fault now m s h e = ground arith

-- Where no statement fails, a check lets through exactly those whose windows are all within the
-- limits, and names to the others the first window that is exceeded.
pub check_complete :
    (now : ℕ) (m : String) (s : Quotas)
    → s.db.faults ≡ []
    → (check now m s).0
      ≡ answer
          (seconds now)
          (limits_now now m s)
          (used_in m (seconds now) s)
          (first_over (limits_now now m s) (used_in m (seconds now) s) windows)
check_complete now m s h = let c = check_cases now m s in let r = no_fault now m s h in ground arith
