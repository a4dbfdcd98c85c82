-- ===== src/ServiceAccount/Service.antt =====
-- application/serviceaccount/usecase.go: the calls that change the tables, and the authentication.
-- The gate of the members, the hasher of tokens, the clock and the fresh ids are arguments.
use oma_server.Common.{
  ℕ, ◌+◌, Bool, not, ◌||◌, String, Option, none, some, if◌then◌else◌, leb, eqb, Result, ok, err,
  Action, World, ◌>>=◌, ◌>>◌, pure, fail, refuse, lift, attempt, query, exec, statement,
}
use oma_server.Auth.Role.{AuthError, role_level_user}
use oma_server.Auth.Member.{Claims}
use oma_server.ServiceAccount.Model.{
  ServiceAccount, ServiceAccountKey, AccountError, CreateAccountCommand, IssueKeyCommand,
  validation, denied, not_found, invalid_token, token_error, db_error, revoked, is_usable,
  validate_account, validate_issue,
}
use oma_server.ServiceAccount.Tables.{
  Tables, save_account, find_account, revoke_account, revoke_keys_of, save_key, revoke_one,
  find_key_for_auth, touch_rows,
}

-- `defaultLastUsedThrottle`
abbrev pub last_used_throttle : ℕ
last_used_throttle = 60

-- The port `accessGate`: the errors of `RequireAdmin` and `RequireActiveMember`, if any.
pub record AccessGate : Type 0 where
  pub require_admin : String → Option AuthError
  pub require_active_member : String → Option AuthError

abbrev pub Accounts : Type 0 → Type 0
Accounts A = Action (World Tables) AccountError A

unfoldable pub verdict : Option AuthError → Result AccountError (Unit {0})
verdict none = ok tt
verdict (some e) = err (denied e)

-- What is wrong with the owner is not what is wrong with the actor.
unfoldable pub owner_verdict : Option AuthError → Result AccountError (Unit {0})
owner_verdict none = ok tt
owner_verdict (some AuthError.not_found) = err (validation "owner_member_id does not exist")
owner_verdict (some AuthError.permission) =
    err (validation "owner_member_id is not an active member")
owner_verdict (some e) = err (denied e)

unfoldable pub new_account : ℕ → String → CreateAccountCommand → ServiceAccount
new_account now new_id cmd = record {
  id = new_id;
  name = cmd.name;
  description = cmd.description;
  owner_member_id = cmd.owner_member_id;
  created_at = now;
  updated_at = now;
  created_by = cmd.actor_id;
  revoked_at = 0;
}

unfoldable pub create_account :
    AccessGate → ℕ → String → CreateAccountCommand → Accounts ServiceAccount
unfolding verdict owner_verdict
create_account gate now new_id raw = do
  lift (verdict (gate.require_admin raw.actor_id))
  cmd ← lift (validate_account raw)
  lift (owner_verdict (gate.require_active_member cmd.owner_member_id))
  statement db_error (save_account (new_account now new_id cmd))
  pure (new_account now new_id cmd)

unfoldable pub delete_account : AccessGate → ℕ → String → String → Accounts (Unit {0})
unfolding verdict
delete_account gate now actor_id id = do
  lift (verdict (gate.require_admin actor_id))
  statement db_error (revoke_account id now)
  exec db_error (λ t. record t { keys = revoke_keys_of id now t.keys })

unfoldable pub new_key : ℕ → String → IssueKeyCommand → String → String → ServiceAccountKey
new_key now new_id cmd account_id hash = record {
  id = new_id;
  account_id = account_id;
  token_hash = hash;
  created_at = now;
  expires_at = cmd.expires_at;
  last_used_at = 0;
  revoked_at = 0;
  created_by = cmd.actor_id;
}

unfoldable pub made : Option (String × String) → Result AccountError (String × String)
made none = err token_error
made (some p) = ok p

-- `token` is what `NewToken` returns: the text and its hash, or nothing where it fails.
unfoldable pub issue_key :
    AccessGate
    → ℕ
    → String
    → Option (String × String)
    → IssueKeyCommand
    → Accounts (ServiceAccountKey × String)
unfolding verdict made
issue_key gate now new_id token cmd = do
  lift (verdict (gate.require_admin cmd.actor_id))
  lift (validate_issue now cmd)
  account ← query db_error (λ t. find_account cmd.account_id t.accounts)
  refuse (revoked account) not_found
  pair ← lift (made token)
  statement db_error (save_key (new_key now new_id cmd account.id pair.1))
  pure (new_key now new_id cmd account.id pair.1, pair.0)

unfoldable pub revoke_key : AccessGate → ℕ → String → String → String → Accounts (Unit {0})
unfolding verdict
revoke_key gate now actor_id account_id key_id = do
  lift (verdict (gate.require_admin actor_id))
  statement db_error (revoke_one account_id key_id now)

unfoldable pub claims_of : ServiceAccount → Claims
claims_of a = record { member_id = a.id; username = a.name; level = role_level_user }

-- Whether the last use is to be written, which happens in the background.
unfoldable pub is_stale : ℕ → ServiceAccountKey → Bool
is_stale now k = eqb k.last_used_at 0 || leb (k.last_used_at + last_used_throttle) now

-- The claims, and the key whose last use is to be written.
unfoldable pub authenticate : (String → String) → ℕ → String → Accounts (Claims × Option String)
authenticate hash now raw = do
  found ← attempt (query db_error (λ t. find_key_for_auth (hash raw) t t.keys))
  elim found [
    | err _ ↦ fail invalid_token
    | ok p ↦ do
      refuse (revoked p.1 || not (is_usable now p.0)) invalid_token
      pure (claims_of p.1, (if is_stale now p.0 then some p.0.id else none))
  ]

-- The background write; its failure is only logged.
unfoldable pub touch : ℕ → String → Accounts (Unit {0})
touch now key_id = do
  _ ← attempt {A = Unit {0}} (exec db_error (λ t. record t { keys = touch_rows key_id now t.keys }))
  pure tt
