-- ===== src/Quota/Tests.antt =====
-- One member with limits, on 15 February 1970, and the calls on the quotas.
use oma_server.Common.{
  Driver, ℕ, ◌+◌, ◌*◌, ◌<◌, ◌≡◌, ◌≢◌, refl, List, [], ◌∷◌, none, some, suc, lookup, err, arith, ℤ,
  decimal, padded, clamp_pos, contains, text_dec, Bool-cases, fails, spent, insert,
}
use oma_server.Quota.Calendar.{seconds_per_day, civil, iso_week, month_len}
use oma_server.Quota.Model.{
  Window, Limits, ExceededError, windows, period_key, reset_after, clamp, limit_of, pick,
}
use oma_server.Quota.Tables.{Usage, member_limits, usage_for}
use oma_server.Quota.Service.{
  Quotas, Gate, check, seconds, set_member_limits, exceeded, db_error, count,
}
use oma_server.Quota.Usage.{used_of}
use oma_server.Quota.Enforcement.{used_in, first_over, answer}
use oma_server.Quota.Periods.{period_index}
use oma_server.Quota.Keys.{HasFourDigits, period_key_unique, period_key-reset_after}
use oma_server.Quota.Checks.{limits_now, Refuses, check-Refuses, check_complete}
use oma_server.Quota.Requests.{Request, serve_all}
use oma_server.Quota.Ledger.{balance, journal, serve_all-journal}
use oma_server.Quota.Settings.{set_member_limits-again}

abbrev noon : ℕ
noon = 45 * seconds_per_day + 43200

abbrev clock : ℕ
clock = noon * 1000000000

abbrev own : Limits ℤ
own = record { day = ℤ.pos 10; week = ℤ.pos 0; month = ℤ.negsuc 4 }

abbrev row : Usage
row = record { member_id = "ada"; period = "1970-02-15"; used = 12 }

abbrev quotas : Quotas
quotas = record {
  db = record {
    tables = record { usage = row ∷ []; limits = ("ada", clamp own) ∷ []; defaults = none };
    faults = [];
  };
  cache = none;
}

abbrev open_gate : Gate
open_gate _ = none

the_day : period_key Window.daily noon ≡ "1970-02-15"
unfolding period_key decimal month_len padded
the_day = refl

the_week : period_key Window.weekly noon ≡ "1970-W07"
unfolding period_key decimal month_len padded
the_week = refl

the_month : period_key Window.monthly noon ≡ "1970-02"
unfolding period_key decimal month_len padded
the_month = refl

year_lem : (civil 45).0 ≡ 1
unfolding civil month_len
year_lem = refl

week_lem : (iso_week 45).0 ≡ 1970
unfolding iso_week month_len
week_lem = refl

noon-HasFourDigits : HasFourDigits noon
noon-HasFourDigits = record {
  year = let e = year_lem in omega arith;
  week_year = let e = week_lem in omega arith;
}

period_key_unique_example :
    (Window.daily ≡ Window.daily)
    × (period_index Window.daily noon ≡ period_index Window.daily noon)
period_key_unique_example =
    period_key_unique Window.daily Window.daily noon noon noon-HasFourDigits noon-HasFourDigits refl

before_reset : noon + 1000 < reset_after Window.weekly noon
unfolding reset_after
before_reset = omega arith

period_key-reset_after_example :
    (period_key Window.weekly (noon + 1000) ≡ period_key Window.weekly noon)
    × (noon < reset_after Window.weekly noon)
    × (period_index Window.weekly (reset_after Window.weekly noon)
        ≡ suc (period_index Window.weekly noon))
    × (period_key Window.weekly (reset_after Window.weekly noon) ≢ period_key Window.weekly noon)
period_key-reset_after_example =
    period_key-reset_after Window.weekly (noon + 1000) noon (omega arith) before_reset

-- The day is exceeded: 12 used of 10.
abbrev too_many : ExceededError
too_many = record {
  window = Window.daily;
  used = 12;
  limit = 10;
  period = "1970-02-15";
  reset_utc = 46 * seconds_per_day;
}

refused : (check clock "ada" quotas).0 ≡ err (exceeded too_many)
unfolding check fails spent limit_of pick member_limits lookup text_dec Bool-cases clamp clamp_pos
    count usage_for contains period_key decimal month_len padded insert reset_after
refused = refl

check-Refuses_example : Refuses clock "ada" quotas too_many
check-Refuses_example = check-Refuses clock "ada" quotas too_many refused

check_complete_example :
    (check clock "ada" quotas).0
    ≡ answer
        (seconds clock)
        (limits_now clock "ada" quotas)
        (used_in "ada" (seconds clock) quotas)
        (first_over (limits_now clock "ada" quotas) (used_in "ada" (seconds clock) quotas) windows)
check_complete_example = check_complete clock "ada" quotas refl

abbrev requests : List Request
requests =
    Request.check_request clock "ada"
    ∷ Request.add_request clock "ada" (ℤ.pos 5)
    ∷ Request.reset_request "root" "ada"
    ∷ Request.add_request clock "ada" (ℤ.pos 7)
    ∷ []

serve_all-journal_example :
    used_of "ada" "1970-02" (serve_all open_gate Driver.sqlite requests quotas).db.tables.usage
    ≡ balance "ada" "1970-02" 0 (journal open_gate Driver.sqlite requests quotas)
unfolding used_of text_dec Bool-cases
serve_all-journal_example =
    serve_all-journal open_gate Driver.sqlite "ada" "1970-02" requests quotas

stored : lookup "ada" quotas.db.tables.limits ≡ some (clamp own)
unfolding lookup text_dec Bool-cases
stored = refl

set_member_limits-again_example :
    (set_member_limits open_gate Driver.mysql "root" "ada" own quotas).0 ≡ err db_error
set_member_limits-again_example =
    set_member_limits-again open_gate Driver.mysql "root" "ada" own quotas refl refl stored
