-- ===== src/Quota/Ledger.antt =====
-- The table of usage implements a ledger: what a member has used in a period is the sum of what
-- was added for it since the member was last cleared.
use oma_server.Common.{
  Driver, ℕ, ◌+◌, ◌≡◌, refl, ◌&&◌, ◌||◌, String, List, [], ◌∷◌, ◌++◌, none, some, if◌then◌else◌,
  ◌==◌, ℤ, is_not_pos, clamp_pos, fails, arith, ap, sym, ◌∙◌,
}
use oma_server.Quota.Model.{Limits}
use oma_server.Quota.Tables.{Usage, add_rows, add_row, save_limits, save_defaults, inserted}
use oma_server.Quota.Service.{
  Quotas, Gate, check, add, add_usage, status, snapshot_for, gather_all, set_default_limits,
  reset_usage, set_member_limits, seconds, all_keys,
}
use oma_server.Quota.Usage.{used_of, used_of-add_row, used_of-reset_rows}
use oma_server.Quota.Checks.{effective_limits-tables}
use oma_server.Quota.Requests.{Request, serve, serve_all}

-- What is entered in the ledger: tokens of a member in a period, or that a member starts anew.
pub data Entry : Type 0 where
  added : String → String → ℕ → Entry
  cleared : String → Entry

-- The balance of a member in a period after the entries, the oldest first.
unfoldable pub balance : String → String → ℕ → List Entry → ℕ
balance m p n [] = n
balance m p n (Entry.added k q tokens ∷ es) =
    balance m p (if k == m && q == p then n + tokens else n) es
balance m p n (Entry.cleared k ∷ es) = balance m p (if k == m then 0 else n) es

balance-append :
    (m p : String) (n : ℕ) (es fs : List Entry)
    → balance m p n (es ++ fs) ≡ balance m p (balance m p n es) fs
unfolding balance
balance-append m p n [] fs = refl
balance-append m p n (Entry.added k q t ∷ es) fs =
    balance-append m p (if k == m && q == p then n + t else n) es fs
balance-append m p n (Entry.cleared k ∷ es) fs = balance-append m p (if k == m then 0 else n) es fs

unfoldable pub additions : String → ℕ → List String → List Entry
additions m n [] = []
additions m n (p ∷ ps) = Entry.added m p n ∷ additions m n ps

-- The entries that a request makes: three for tokens that are counted, one for a reset, and none
-- where the database fails.
unfoldable pub entries : Gate → Request → Quotas → List Entry
unfolding additions
entries gate (Request.add_request now m tokens) s =
    if is_not_pos tokens || m == "" || fails s.db
    then []
    else additions m (clamp_pos tokens) (all_keys (seconds now))
entries gate (Request.reset_request actor m) s = elim (gate actor) [
  | some _ ↦ []
  | none ↦ if fails s.db then [] else Entry.cleared m ∷ []
]
entries gate _ s = []

used_of-add_rows :
    (m p k : String) (n : ℕ) (qs : List String) (us : List Usage)
    → used_of m p (add_rows k n qs us) ≡ balance m p (used_of m p us) (additions k n qs)
unfolding add_rows balance additions
used_of-add_rows m p k n [] us = refl
used_of-add_rows m p k n (q ∷ qs) us =
    used_of-add_rows m p k n qs (add_row k q n us)
    ∙ ap (λ x. balance m p x (additions k n qs)) (used_of-add_row m p k q n us)

check-usage : (now : ℕ) (m : String) (s : Quotas) → (check now m s).1.db.tables ≡ s.db.tables
unfolding check
check-usage now m s = ground (arith, effective_limits-tables now m s)

status-usage : (now : ℕ) (m : String) (s : Quotas) → (status now m s).1.db.tables ≡ s.db.tables
unfolding status
status-usage now m s = ground (arith, effective_limits-tables now m s)

snapshot-usage :
    (now : ℕ) (ids : List String) (s : Quotas) → (snapshot_for now ids s).1.db.tables ≡ s.db.tables
unfolding snapshot_for gather_all
snapshot-usage now ids s = ground arith

defaults-usage :
    (gate : Gate) (d : Driver) (actor : String) (l : Limits ℤ) (s : Quotas)
    → (set_default_limits gate d actor l s).1.db.tables.usage ≡ s.db.tables.usage
unfolding set_default_limits save_defaults inserted
defaults-usage gate d actor l s = ground arith

limits-usage :
    (gate : Gate) (d : Driver) (actor m : String) (l : Limits ℤ) (s : Quotas)
    → (set_member_limits gate d actor m l s).1.db.tables.usage ≡ s.db.tables.usage
unfolding set_member_limits save_limits inserted
limits-usage gate d actor m l s = ground arith

add-usage :
    (m p : String) (now : ℕ) (k : String) (z : ℤ) (s : Quotas)
    → used_of m p (add now k z s).1.db.tables.usage
      ≡ balance m p (used_of m p s.db.tables.usage) (
          if is_not_pos z || k == "" || fails s.db
          then []
          else additions k (clamp_pos z) (all_keys (seconds now)))
unfolding add add_usage is_not_pos clamp_pos balance
add-usage m p now k z s =
    ground (arith, used_of-add_rows m p k (clamp_pos z) (all_keys (seconds now)) s.db.tables.usage)

reset-usage :
    (m p : String) (gate : Gate) (actor k : String) (s : Quotas)
    → used_of m p (reset_usage gate actor k s).1.db.tables.usage
      ≡ balance m p (used_of m p s.db.tables.usage) (entries gate (Request.reset_request actor k) s)
unfolding reset_usage entries balance
reset-usage m p gate actor k s = ground (arith, used_of-reset_rows m p k s.db.tables.usage)

-- Each request changes the table of usage as its entries change the ledger.
pub serve-entries :
    (gate : Gate) (driver : Driver) (m p : String) (r : Request) (s : Quotas)
    → used_of m p (serve gate driver r s).db.tables.usage
      ≡ balance m p (used_of m p s.db.tables.usage) (entries gate r s)
unfolding serve entries balance
serve-entries gate d m p (Request.check_request now k) s =
    ap (λ t. used_of m p t.usage) (check-usage now k s)
serve-entries gate d m p (Request.add_request now k z) s = add-usage m p now k z s
serve-entries gate d m p (Request.status_request now k) s =
    ap (λ t. used_of m p t.usage) (status-usage now k s)
serve-entries gate d m p (Request.snapshot_request now ids) s =
    ap (λ t. used_of m p t.usage) (snapshot-usage now ids s)
serve-entries gate d m p (Request.default_limits_request actor l) s =
    ap (used_of m p) (defaults-usage gate d actor l s)
serve-entries gate d m p (Request.reset_request actor k) s = reset-usage m p gate actor k s
serve-entries gate d m p (Request.member_limits_request actor k l) s =
    ap (used_of m p) (limits-usage gate d actor k l s)

-- The entries of a run, the oldest first.
unfoldable pub journal : Gate → Driver → List Request → Quotas → List Entry
unfolding entries serve
journal gate d [] s = []
journal gate d (r ∷ rs) s = entries gate r s ++ journal gate d rs (serve gate d r s)

-- However the service is used, and whichever statements fail, the table has for a member and a
-- period the balance of the ledger: what was there and what was added since, or since the last
-- reset of the member.
pub serve_all-journal :
    (gate : Gate) (driver : Driver) (m p : String) (rs : List Request) (s : Quotas)
    → used_of m p (serve_all gate driver rs s).db.tables.usage
      ≡ balance m p (used_of m p s.db.tables.usage) (journal gate driver rs s)
unfolding serve_all journal balance
serve_all-journal gate d m p [] s = refl
serve_all-journal gate d m p (r ∷ rs) s =
    serve_all-journal gate d m p rs (serve gate d r s)
    ∙ ap (λ n. balance m p n (journal gate d rs (serve gate d r s))) (serve-entries gate d m p r s)
    ∙ sym (balance-append m p _ (entries gate r s) _)
