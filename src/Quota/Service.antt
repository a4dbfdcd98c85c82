-- ===== src/Quota/Service.antt =====
-- application/quota/service.go. The clock and the gate are arguments; a call reads the clock once,
-- in nanoseconds. The log is left out.
use oma_server.Common.{
  Driver, ℕ, ◌+◌, ◌-◌, ◌*◌, ◌/◌, ◌||◌, String, List, [], ◌∷◌, Option, none, some, map,
  if◌then◌else◌, ltb, leb, eqb, ◌==◌, ℤ, clamp_pos, is_not_pos, Map, insert, lookup, is_empty,
  Result, ok, err, Action, World, ◌>>=◌, ◌>>◌, pure, attempt, query, exec,
}
use oma_server.Auth.Role.{AuthError}
use oma_server.Quota.Model.{
  Window, Limits, ExceededError, PeriodKeys, WindowStatus, Status, windows, no_limits, limit_of,
  set_limit, period_key, keys_at, reset_after, pick, clamp,
}
use oma_server.Quota.Tables.{
  Tables, add_rows, usage_for, usage_by, reset_rows, member_limits, limits_by, default_row,
  save_limits, save_defaults,
}

-- `defaultLimitsTTL`
abbrev pub default_limits_ttl : ℕ
default_limits_ttl = 30 * 1000000000

abbrev pub seconds : ℕ → ℕ
seconds now = now / 1000000000

pub record CachedLimits : Type 0 where
  pub limits : Limits ℕ
  pub expires : ℕ

pub data QuotaError : Type 0 where
  exceeded : ExceededError → QuotaError
  denied : AuthError → QuotaError
  db_error : QuotaError

-- The repository's database, and `defCache`.
pub record Quotas : Type 0 where
  pub db : World Tables
  pub cache : Option CachedLimits

abbrev pub Call : Type 0 → Type 0
Call A = Action Quotas QuotaError A

abbrev pub on_db : {A : Type 0} → Action (World Tables) QuotaError A → Call A
on_db m s = let (r, w) = m s.db in (r, record s { db = w })

abbrev set_cache : Option CachedLimits → Call (Unit {0})
set_cache c s = (ok tt, record s { cache = c })

-- `defCache.Load()`, where it has not expired.
unfoldable pub fresh : ℕ → Option CachedLimits → Option (Limits ℕ)
fresh now none = none
fresh now (some c) = if ltb now c.expires then some c.limits else none

unfoldable pub load_defaults : ℕ → Call (Limits ℕ)
load_defaults now = do
  l ← on_db (query db_error (λ t. ok (default_row t)))
  set_cache (some (record { limits = l; expires = now + default_limits_ttl }))
  pure l

unfoldable pub default_limits : ℕ → Call (Limits ℕ)
unfolding load_defaults fresh
default_limits now s = elim (fresh now s.cache) [ some l ↦ (ok l, s) | none ↦ load_defaults now s ]

unfoldable pub picked : Limits ℕ → Limits ℕ → Limits ℕ
picked member def = record {
  day = pick member.day def.day;
  week = pick member.week def.week;
  month = pick member.month def.month;
}

unfoldable pub effective_limits : ℕ → String → Call (Limits ℕ)
unfolding picked default_limits
effective_limits now member_id = do
  member ← on_db (query db_error (λ t. ok (member_limits member_id t)))
  def ← default_limits now
  pure (picked member def)

-- The keys of the windows that have a limit.
unfoldable pub limited : ℕ → Limits ℕ → List Window → List String
limited t l [] = []
limited t l (w ∷ ws) =
    if ltb 0 (limit_of w l) then period_key w t ∷ limited t l ws else limited t l ws

-- `usage[period]` of a Go map: 0 where nothing is there.
unfoldable pub count : String → Map ℕ → ℕ
count p usage = elim (lookup p usage) [ none ↦ 0 | some n ↦ n ]

unfoldable pub overrun : ℕ → Limits ℕ → Map ℕ → Window → ExceededError
overrun t l usage w = record {
  window = w;
  used = count (period_key w t) usage;
  limit = limit_of w l;
  period = period_key w t;
  reset_utc = reset_after w t;
}

-- The second loop of `Check`.
unfoldable pub enforce : ℕ → Limits ℕ → Map ℕ → List Window → Result QuotaError (Unit {0})
unfolding overrun
enforce t l usage [] = ok tt
enforce t l usage (w ∷ ws) =
    let next = enforce t l usage ws in
    if leb (limit_of w l) 0
    then next
    else if leb (limit_of w l) (count (period_key w t) usage)
    then err (exceeded (overrun t l usage w))
    else next

unfoldable pub check : ℕ → String → Call (Unit {0})
unfolding effective_limits enforce limited
check now member_id = do
  l ← effective_limits now member_id
  let t = seconds now
  let periods = limited t l windows
  if is_empty periods then pure tt else do
    usage ← on_db (query db_error (λ tables. ok (usage_for member_id periods tables.usage)))
    λ s. (enforce t l usage windows, s)

abbrev pub all_keys : ℕ → List String
all_keys t = map (λ w. period_key w t) windows

-- `AddUsage`
unfoldable pub add_usage : String → List String → ℕ → Call (Unit {0})
add_usage member_id periods tokens =
    if is_empty periods || eqb tokens 0
    then pure tt
    else on_db (exec db_error (λ t. record t { usage = add_rows member_id tokens periods t.usage }))

-- `Add`, whose failure is only logged.
unfoldable pub add : ℕ → String → ℤ → Call (Unit {0})
unfolding add_usage
add now member_id tokens = if is_not_pos tokens || member_id == "" then pure tt else do
  _ ← attempt {A = Unit {0}} (add_usage member_id (all_keys (seconds now)) (clamp_pos tokens))
  pure tt

unfoldable pub status_row : ℕ → Limits ℕ → Map ℕ → Window → WindowStatus
status_row t l usage w =
    let used = count (period_key w t) usage in
    record {
      window = w;
      limit = limit_of w l;
      used = used;
      remaining = limit_of w l - used;
      unlimited = leb (limit_of w l) 0;
    }

unfoldable pub status : ℕ → String → Call Status
unfolding effective_limits status_row
status now member_id = do
  l ← effective_limits now member_id
  let t = seconds now
  usage ← on_db (query db_error (λ tables. ok (usage_for member_id (all_keys t) tables.usage)))
  pure (record { period = keys_at t; rows = map (status_row t l usage) windows })

-- `Snapshot`
pub record Snapshot : Type 0 where
  pub defaults : Limits ℕ
  pub keys : PeriodKeys
  pub limits : Map (Limits ℕ)
  pub usage : Map (Limits ℕ)

-- `usage[id]`, or the zero value.
unfoldable pub used_by : String → Map (Limits ℕ) → Limits ℕ
used_by id usage = elim (lookup id usage) [ none ↦ no_limits | some l ↦ l ]

unfoldable pub gather : Window → Map ℕ → Map (Limits ℕ) → Map (Limits ℕ)
gather w [] usage = usage
gather w ((id, v) ∷ m) usage = gather w m (insert id (set_limit w v (used_by id usage)) usage)

unfoldable pub gather_all : ℕ → List String → List Window → Map (Limits ℕ) → Call (Map (Limits ℕ))
gather_all t ids [] usage = pure usage
gather_all t ids (w ∷ ws) usage = do
  m ← on_db (query db_error (λ tables. ok (usage_by (period_key w t) ids tables.usage)))
  gather_all t ids ws (gather w m usage)

unfoldable pub snapshot_for : ℕ → List String → Call Snapshot
snapshot_for now ids = do
  let t = seconds now
  def ← on_db (query db_error (λ tables. ok (default_row tables)))
  if is_empty ids
      then pure (record { defaults = def; keys = keys_at t; limits = []; usage = [] })
      else do
        limits ← on_db (query db_error (λ tables. ok (limits_by ids tables.limits)))
        usage ← gather_all t ids windows []
        pure (record { defaults = def; keys = keys_at t; limits = limits; usage = usage })

-- The port `accessGate`: the error of `RequireAdmin`, if any.
abbrev pub Gate : Type 0
Gate = String → Option AuthError

abbrev pub require_admin : Gate → String → Call (Unit {0})
require_admin gate actor_id s = (elim (gate actor_id) [ none ↦ ok tt | some e ↦ err (denied e) ], s)

unfoldable pub set_default_limits : Gate → Driver → String → Limits ℤ → Call (Unit {0})
set_default_limits gate driver actor_id l = do
  require_admin gate actor_id
  on_db (save_defaults db_error driver (clamp l))
  set_cache none

unfoldable pub reset_usage : Gate → String → String → Call (Unit {0})
reset_usage gate actor_id member_id = do
  require_admin gate actor_id
  on_db (exec db_error (λ t. record t { usage = reset_rows member_id t.usage }))

unfoldable pub set_member_limits : Gate → Driver → String → String → Limits ℤ → Call (Unit {0})
set_member_limits gate driver actor_id member_id l = do
  require_admin gate actor_id
  on_db (save_limits db_error driver member_id (clamp l))
