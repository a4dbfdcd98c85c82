-- ===== src/Quota/Enforcement.antt =====
-- What `Check` answers, told from the table instead of from the maps that the queries return.
use oma_server.Common.{
  ℕ, ◌<◌, ◌≡◌, refl, Bool, true, ◌&&◌, ◌||◌, String, List, [], ◌∷◌, Option, none, some,
  if◌then◌else◌, ltb, leb, contains, is_empty, Result, ok, err, arith,
}
use oma_server.Quota.Model.{Window, Limits, windows, limit_of, period_key, reset_after}
use oma_server.Quota.Tables.{usage_for}
use oma_server.Quota.Service.{Quotas, QuotaError, exceeded, enforce, limited, count, overrun}
use oma_server.Quota.Usage.{used_of, count-usage_for}

-- A window is not exceeded: it has no limit, or less was used.
unfoldable pub within : Limits ℕ → (Window → ℕ) → Window → Bool
within l used w = leb (limit_of w l) 0 || ltb (used w) (limit_of w l)

-- The windows, in their order, up to the first that is exceeded.
unfoldable pub first_over : Limits ℕ → (Window → ℕ) → List Window → Option Window
unfolding within
first_over l used [] = none
first_over l used (w ∷ ws) = if within l used w then first_over l used ws else some w

unfoldable pub all_within : Limits ℕ → (Window → ℕ) → Bool
unfolding within
all_within l used =
    within l used Window.daily && within l used Window.weekly && within l used Window.monthly

-- What a member has used in the windows of a time.
unfoldable pub used_in : String → ℕ → Quotas → Window → ℕ
used_in m t s w = used_of m (period_key w t) s.db.tables.usage

limited_has :
    (t : ℕ) (l : Limits ℕ) (w : Window)
    → 0 < limit_of w l
    → contains (limited t l windows) (period_key w t) ≡ true
unfolding contains limited
limited_has t l Window.daily h = ground arith
limited_has t l Window.weekly h = ground arith
limited_has t l Window.monthly h = ground arith

count_used :
    (m : String) (t : ℕ) (l : Limits ℕ) (s : Quotas) (w : Window)
    → 0 < limit_of w l
    → count (period_key w t) (usage_for m (limited t l windows) s.db.tables.usage) ≡ used_in m t s w
unfolding used_in
count_used m t l s w h = ground (
  arith,
  count-usage_for m (period_key w t) (limited t l windows) s.db.tables.usage,
  limited_has t l w,
)

-- The answer of the loop, by the first window that is exceeded.
unfoldable pub answer : ℕ → Limits ℕ → (Window → ℕ) → Option Window → Result QuotaError (Unit {0})
answer t l used none = ok tt
answer t l used (some w) = err (
    exceeded (record {
      window = w;
      used = used w;
      limit = limit_of w l;
      period = period_key w t;
      reset_utc = reset_after w t;
    }))

pub enforce_lem :
    (m : String) (t : ℕ) (l : Limits ℕ) (s : Quotas) (ws : List Window)
    → enforce t l (usage_for m (limited t l windows) s.db.tables.usage) ws
      ≡ answer t l (used_in m t s) (first_over l (used_in m t s) ws)
unfolding enforce answer first_over within overrun
enforce_lem m t l s [] = refl
enforce_lem m t l s (w ∷ ws) = ground (arith, enforce_lem m t l s ws, count_used m t l s w)

pub unlimited :
    (t : ℕ) (l : Limits ℕ) (used : Window → ℕ)
    → is_empty (limited t l windows) ≡ true
    → first_over l used windows ≡ none
unfolding limited first_over within
unlimited t l used h = ground arith
