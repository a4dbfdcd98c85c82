-- ===== src/Quota/Requests.antt =====
-- The calls of the quota service as data, and what each leaves.
use oma_server.Common.{Driver, ℕ, String, List, [], ◌∷◌, ℤ}
use oma_server.Quota.Model.{Limits}
use oma_server.Quota.Service.{
  Quotas, Gate, check, add, status, snapshot_for, set_default_limits, reset_usage,
  set_member_limits,
}

-- The clock's reading stands first where the call reads it.
pub data Request : Type 0 where
  check_request : ℕ → String → Request
  add_request : ℕ → String → ℤ → Request
  status_request : ℕ → String → Request
  snapshot_request : ℕ → List String → Request
  default_limits_request : String → Limits ℤ → Request
  reset_request : String → String → Request
  member_limits_request : String → String → Limits ℤ → Request

module _ (gate : Gate) (driver : Driver) where
  unfoldable pub serve : Request → Quotas → Quotas
  serve (Request.check_request now m) s = (check now m s).1
  serve (Request.add_request now m tokens) s = (add now m tokens s).1
  serve (Request.status_request now m) s = (status now m s).1
  serve (Request.snapshot_request now ids) s = (snapshot_for now ids s).1
  serve (Request.default_limits_request actor l) s = (set_default_limits gate driver actor l s).1
  serve (Request.reset_request actor m) s = (reset_usage gate actor m s).1
  serve (Request.member_limits_request actor m l) s = (set_member_limits gate driver actor m l s).1

  unfoldable pub serve_all : List Request → Quotas → Quotas
  unfolding serve
  serve_all [] s = s
  serve_all (r ∷ rs) s = serve_all rs (serve r s)
