-- ===== src/ToolPolicy/Manager.antt =====
-- application/toolpolicy/manager.go over its two tables (toolpolicy_settings_repository.go and
-- member_toolpolicy_repository.go in adapter/out/db): the cache of the global policy and of the
-- overrides, and the calls that keep it.
use oma_server.Common.{
  ℕ, Bool, true, false, String, List, [], ◌∷◌, Option, none, some, ◌||◌, if◌then◌else◌, ◌==◌,
  Result, ok, err, Action, World, ◌>>=◌, ◌>>◌, pure, query, exec, statement, Map, lookup, insert,
}
use oma_server.Auth.Role.{AuthError}
use oma_server.ToolPolicy.Policy.{
  Settings, MemberPolicy, Effective, default_settings, normalize, normalize_member, norm_mode,
  is_empty_policy, resolve_effective,
}

-- The row with id 1 of `tool_policy_settings`, and the rows of `member_tool_policy`.
pub record Tables : Type 0 where
  pub settings : Option Settings
  pub policies : List MemberPolicy

pub data PolicyError : Type 0 where
  denied : AuthError → PolicyError
  db_error : PolicyError

pub record Manager : Type 0 where
  pub db : World Tables
  pub cur : Option Settings
  pub members : Option (Map MemberPolicy)

abbrev pub Policies : Type 0 → Type 0
Policies A = Action Manager PolicyError A

abbrev on_db : {A : Type 0} → Action (World Tables) PolicyError A → Policies A
on_db m s = let (r, w) = m s.db in (r, record s { db = w })

-- `ToolPolicyRepository.Get`
unfoldable pub read_settings : Tables → Settings
read_settings t = elim t.settings [
  | none ↦ default_settings
  | some s ↦ record s { mode = norm_mode s.mode }
]

abbrev is_some : {A : Type 0} → Option A → Bool
is_some none = false
is_some (some _) = true

-- `UPDATE … WHERE id=1`, with whether a row was there.
abbrev update_settings_row : Settings → Tables → Tables
update_settings_row s t = record t { settings = if is_some t.settings then some s else t.settings }

-- `ToolPolicyRepository.Save`: an update, then an insert where no row was there.
unfoldable pub save_settings : Settings → Policies (Unit {0})
save_settings s = do
  there ← on_db (statement db_error (λ t. (ok (is_some t.settings), update_settings_row s t)))
  if there then pure tt else on_db (exec db_error (λ t. record t { settings = some s }))

unfoldable pub has_policy : String → List MemberPolicy → Bool
has_policy id [] = false
has_policy id (p ∷ ps) = p.member_id == id || has_policy id ps

unfoldable pub update_policy : MemberPolicy → List MemberPolicy → List MemberPolicy
update_policy n [] = []
update_policy n (p ∷ ps) =
    (if p.member_id == n.member_id
      then record p {
        enabled = n.enabled;
        disabled = n.disabled;
        updated_at = n.updated_at;
        updated_by = n.updated_by;
      }
      else p)
    ∷ update_policy n ps

unfoldable pub delete_policy : String → List MemberPolicy → List MemberPolicy
delete_policy id [] = []
delete_policy id (p ∷ ps) =
    if p.member_id == id then delete_policy id ps else p ∷ delete_policy id ps

-- `MemberToolPolicyRepository.Save`, over the rows as SQLite counts them.
unfoldable pub save_policy : MemberPolicy → Policies (Unit {0})
save_policy n = do
  there ← on_db (
      statement db_error (λ t. (
        ok (has_policy n.member_id t.policies),
        record t { policies = update_policy n t.policies },
      )))
  if there then pure tt else on_db (exec db_error (λ t. record t { policies = n ∷ t.policies }))

-- The map of `reload`: normalised overrides by member, without the empty ones.
unfoldable pub by_member : Map MemberPolicy → List MemberPolicy → Map MemberPolicy
by_member acc [] = acc
by_member acc (p ∷ ps) =
    by_member
      (if is_empty_policy (normalize_member p)
        then acc
        else insert p.member_id (normalize_member p) acc)
      ps

abbrev set_cur : Settings → Policies (Unit {0})
set_cur s m = (ok tt, record m { cur = some s })

abbrev set_members : Map MemberPolicy → Policies (Unit {0})
set_members map m = (ok tt, record m { members = some map })

unfoldable pub reload : Policies (Unit {0})
reload = do
  s ← on_db (query db_error (λ t. ok (read_settings t)))
  set_cur (normalize s)
  list ← on_db (query db_error (λ t. ok t.policies))
  set_members (by_member [] list)

-- `NewManager`: nothing is cached before the first load.
unfoldable pub new_manager : World Tables → Result PolicyError (Unit {0}) × Manager
new_manager w = reload (record { db = w; cur = none; members = none })

unfoldable pub current : Manager → Settings
current m = elim m.cur [ none ↦ default_settings | some s ↦ s ]

unfoldable pub member_policy : String → Manager → Option MemberPolicy
member_policy id m = elim m.members [ none ↦ none | some map ↦ lookup id map ]

-- The port `accessGate`: the error of `RequireAdmin`, if any.
abbrev pub Gate : Type 0
Gate = String → Option AuthError

abbrev pub require_admin : Gate → String → Policies (Unit {0})
require_admin gate actor_id m = (elim (gate actor_id) [ none ↦ ok tt | some e ↦ err (denied e) ], m)

unfoldable pub get_settings : Gate → String → Policies Settings
get_settings gate actor_id = do require_admin gate actor_id; λ m. (ok (current m), m)

unfoldable pub stamped : ℕ → String → Settings → Settings
stamped now actor_id s = record (normalize s) { updated_at = now; updated_by = actor_id }

unfoldable pub update_settings : Gate → ℕ → String → Settings → Policies (Unit {0})
update_settings gate now actor_id s = do
  require_admin gate actor_id
  save_settings (stamped now actor_id s)
  reload

-- `MemberToolPolicyRepository.Get`
unfoldable pub find_or_empty : String → List MemberPolicy → MemberPolicy
find_or_empty id [] = record {
  member_id = id;
  enabled = [];
  disabled = [];
  updated_at = 0;
  updated_by = "";
}
find_or_empty id (p ∷ ps) = if p.member_id == id then p else find_or_empty id ps

unfoldable pub get_member_policy : Gate → String → String → Policies MemberPolicy
get_member_policy gate actor_id id = do
  require_admin gate actor_id
  on_db (query db_error (λ t. ok (find_or_empty id t.policies)))

pub record MemberUpdateCommand : Type 0 where
  pub member_id : String
  pub enabled : List String
  pub disabled : List String
  pub actor_id : String

unfoldable pub commanded : MemberUpdateCommand → MemberPolicy
commanded cmd = normalize_member (record {
  member_id = cmd.member_id;
  enabled = cmd.enabled;
  disabled = cmd.disabled;
  updated_at = 0;
  updated_by = "";
})

-- An override that says nothing is deleted.
unfoldable pub write_override : ℕ → MemberUpdateCommand → Policies (Unit {0})
write_override now cmd =
    if is_empty_policy (commanded cmd)
    then on_db (exec db_error (λ t. record t { policies = delete_policy cmd.member_id t.policies }))
    else save_policy (record (commanded cmd) { updated_at = now; updated_by = cmd.actor_id })

unfoldable pub update_member_policy : Gate → ℕ → MemberUpdateCommand → Policies (Unit {0})
update_member_policy gate now cmd = do
  require_admin gate cmd.actor_id
  write_override now cmd
  reload

-- The policy that the handlers enforce for a member.
unfoldable pub effective_policy : String → Manager → Effective
effective_policy id m = resolve_effective (current m) (member_policy id m)

unfoldable pub member_policies_for : List String → Manager → Map MemberPolicy
member_policies_for [] m = []
member_policies_for (id ∷ ids) m =
    let others = member_policies_for ids m in
    elim (member_policy id m) [ none ↦ others | some p ↦ insert id p others ]
