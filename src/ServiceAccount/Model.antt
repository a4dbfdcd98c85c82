-- ===== src/ServiceAccount/Model.antt =====
-- domain/serviceaccount/model.go. Times are unix seconds, and 0 is the zero time.
use oma_server.Common.{
  ℕ, ◌+◌, ◌*◌, Bool, true, false, not, ◌&&◌, String, if◌then◌else◌, ltb, eqb, ◌==◌, trim_space,
  Result, ok, err,
}
use oma_server.Auth.Role.{AuthError}

pub data AccountError : Type 0 where
  not_found key_not_found invalid_token db_error token_error : AccountError
  validation : String → AccountError
  denied : AuthError → AccountError

-- `MinKeyLifetime`
abbrev pub min_key_lifetime : ℕ
min_key_lifetime = 90 * 24 * 3600

pub record ServiceAccount : Type 0 where
  pub id : String
  pub name : String
  pub description : String
  pub owner_member_id : String
  pub created_at : ℕ
  pub updated_at : ℕ
  pub created_by : String
  pub revoked_at : ℕ

unfoldable pub revoked : ServiceAccount → Bool
revoked a = not (eqb a.revoked_at 0)

pub record ServiceAccountKey : Type 0 where
  pub id : String
  pub account_id : String
  pub token_hash : String
  pub created_at : ℕ
  pub expires_at : ℕ
  pub last_used_at : ℕ
  pub revoked_at : ℕ
  pub created_by : String

-- `func (k ServiceAccountKey) IsUsable(now time.Time) bool`
unfoldable pub is_usable : ℕ → ServiceAccountKey → Bool
is_usable now k =
    if not (eqb k.revoked_at 0)
    then false
    else if not (eqb k.expires_at 0) && not (ltb now k.expires_at)
    then false
    else true

pub record CreateAccountCommand : Type 0 where
  pub actor_id : String
  pub name : String
  pub owner_member_id : String
  pub description : String

unfoldable pub normalize_account : CreateAccountCommand → CreateAccountCommand
normalize_account c = record c {
  name = trim_space c.name;
  owner_member_id = trim_space c.owner_member_id;
  description = trim_space c.description;
}

-- `Validate` normalises the command in place: it comes back with the verdict.
unfoldable pub validate_account : CreateAccountCommand → Result AccountError CreateAccountCommand
unfolding normalize_account
validate_account c =
    let n = normalize_account c in
    if n.name == ""
    then err (validation "name is required")
    else if n.owner_member_id == ""
    then err (validation "owner_member_id is required")
    else ok n

pub record IssueKeyCommand : Type 0 where
  pub actor_id : String
  pub account_id : String
  pub expires_at : ℕ

unfoldable pub validate_issue : ℕ → IssueKeyCommand → Result AccountError (Unit {0})
validate_issue now c =
    if eqb c.expires_at 0
    then ok tt
    else if not (ltb now c.expires_at)
    then err (validation "expires_at must be in the future")
    else if ltb c.expires_at (now + min_key_lifetime)
    then err (validation "expires_at must be at least 90 days in the future")
    else ok tt
