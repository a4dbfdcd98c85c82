-- ===== src/ServiceAccount/Tables.antt =====
-- adapter/out/db/serviceaccount_repository.go: the two tables under their statements.
use oma_server.Common.{
  ℕ, Bool, false, ◌&&◌, ◌||◌, String, List, [], ◌∷◌, if◌then◌else◌, eqb, ◌==◌, Result, ok, err,
}
use oma_server.ServiceAccount.Model.{
  ServiceAccount, ServiceAccountKey, AccountError, not_found, key_not_found, db_error,
}

pub record Tables : Type 0 where
  pub accounts : List ServiceAccount
  pub keys : List ServiceAccountKey

unfoldable pub has_account : String → List ServiceAccount → Bool
has_account id [] = false
has_account id (a ∷ others) = a.id == id || has_account id others

-- `SaveAccount`: the id is the primary key.
unfoldable pub save_account : ServiceAccount → Tables → Result AccountError (Unit {0}) × Tables
save_account a t =
    if has_account a.id t.accounts
    then (err db_error, t)
    else (ok tt, record t { accounts = a ∷ t.accounts })

unfoldable pub find_account : String → List ServiceAccount → Result AccountError ServiceAccount
find_account id [] = err not_found
find_account id (a ∷ others) = if a.id == id then ok a else find_account id others

unfoldable pub has_active : String → List ServiceAccount → Bool
has_active id [] = false
has_active id (a ∷ others) = (a.id == id && eqb a.revoked_at 0) || has_active id others

unfoldable pub revoke_rows : String → ℕ → List ServiceAccount → List ServiceAccount
revoke_rows id now [] = []
revoke_rows id now (a ∷ others) =
    (if a.id == id && eqb a.revoked_at 0
      then record a { revoked_at = now; updated_at = now }
      else a)
    ∷ revoke_rows id now others

-- `RevokeAccount`
unfoldable pub revoke_account : String → ℕ → Tables → Result AccountError (Unit {0}) × Tables
revoke_account id now t = (
  if has_active id t.accounts then ok tt else err not_found,
  record t { accounts = revoke_rows id now t.accounts },
)

unfoldable pub has_key : String → List ServiceAccountKey → Bool
has_key id [] = false
has_key id (k ∷ ks) = k.id == id || has_key id ks

unfoldable pub has_hash : String → List ServiceAccountKey → Bool
has_hash hash [] = false
has_hash hash (k ∷ ks) = k.token_hash == hash || has_hash hash ks

-- `SaveKey`: the id is the primary key, and the hash is unique.
unfoldable pub save_key : ServiceAccountKey → Tables → Result AccountError (Unit {0}) × Tables
save_key k t =
    if has_key k.id t.keys || has_hash k.token_hash t.keys
    then (err db_error, t)
    else (ok tt, record t { keys = k ∷ t.keys })

unfoldable pub has_active_key : String → String → List ServiceAccountKey → Bool
has_active_key account id [] = false
has_active_key account id (k ∷ ks) =
    (k.id == id && k.account_id == account && eqb k.revoked_at 0) || has_active_key account id ks

unfoldable pub revoke_key_rows :
    String → String → ℕ → List ServiceAccountKey → List ServiceAccountKey
revoke_key_rows account id now [] = []
revoke_key_rows account id now (k ∷ ks) =
    (if k.id == id && k.account_id == account && eqb k.revoked_at 0
      then record k { revoked_at = now }
      else k)
    ∷ revoke_key_rows account id now ks

-- `RevokeKey`
unfoldable pub revoke_one : String → String → ℕ → Tables → Result AccountError (Unit {0}) × Tables
revoke_one account id now t = (
  if has_active_key account id t.keys then ok tt else err key_not_found,
  record t { keys = revoke_key_rows account id now t.keys },
)

-- `RevokeKeysByAccount`
unfoldable pub revoke_keys_of : String → ℕ → List ServiceAccountKey → List ServiceAccountKey
revoke_keys_of account now [] = []
revoke_keys_of account now (k ∷ ks) =
    (if k.account_id == account && eqb k.revoked_at 0 then record k { revoked_at = now } else k)
    ∷ revoke_keys_of account now ks

unfoldable pub joined_with :
    ServiceAccountKey
    → Result AccountError ServiceAccount
    → Result AccountError (ServiceAccountKey × ServiceAccount)
joined_with k (ok a) = ok (k, a)
joined_with k (err _) = err key_not_found

-- `FindKeyForAuth`: the key of the hash, which is unique, joined with its account.
unfoldable pub find_key_for_auth :
    String
    → Tables
    → List ServiceAccountKey
    → Result AccountError (ServiceAccountKey × ServiceAccount)
unfolding joined_with
find_key_for_auth hash t [] = err key_not_found
find_key_for_auth hash t (k ∷ ks) =
    if k.token_hash == hash
    then joined_with k (find_account k.account_id t.accounts)
    else find_key_for_auth hash t ks

-- `TouchKeyLastUsed`
unfoldable pub touch_rows : String → ℕ → List ServiceAccountKey → List ServiceAccountKey
touch_rows id now [] = []
touch_rows id now (k ∷ ks) =
    (if k.id == id then record k { last_used_at = now } else k) ∷ touch_rows id now ks
