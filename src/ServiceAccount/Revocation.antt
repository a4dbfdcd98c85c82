-- ===== src/ServiceAccount/Revocation.antt =====
-- A service account that was deleted stays locked out, whatever is called afterwards.
use oma_server.Common.{
  ℕ, ◌<◌, ◌≡◌, ◌≢◌, refl, true, false, String, List, [], ◌∷◌, Option, ok, World, ◌>>=◌, pure, arith,
  inl, inr, Result-cases, text_dec,
}
use mathlib.Core.List.{Memᴰ}
use oma_server.Auth.Role.{role_level_user}
use oma_server.Auth.Member.{Claims}
use oma_server.ServiceAccount.Model.{
  ServiceAccount, ServiceAccountKey, CreateAccountCommand, IssueKeyCommand, revoked, is_usable,
  validate_account,
}
use oma_server.ServiceAccount.Tables.{
  Tables, has_account, has_active, find_account, revoke_rows, save_account, revoke_account,
  find_key_for_auth, save_key, revoke_one,
}
use oma_server.ServiceAccount.Service.{
  AccessGate, Accounts, create_account, delete_account, issue_key, revoke_key, authenticate, touch,
  claims_of, new_account,
}

-- The calls that write, as data.
pub data AccountCall : Type 0 where
  create : String → CreateAccountCommand → AccountCall
  remove : String → String → AccountCall
  issue : String → Option (String × String) → IssueKeyCommand → AccountCall
  revoke : String → String → String → AccountCall
  used : String → AccountCall

abbrev discard : {A : Type 0} → Accounts A → Accounts (Unit {0})
discard m = m >>= λ _. pure tt

unfoldable pub call : AccessGate → ℕ → AccountCall → Accounts (Unit {0})
call gate now (create id cmd) = discard (create_account gate now id cmd)
call gate now (remove actor id) = delete_account gate now actor id
call gate now (issue id token cmd) = discard (issue_key gate now id token cmd)
call gate now (revoke actor account key) = revoke_key gate now actor account key
call gate now (used key) = touch now key

unfoldable pub call_all : AccessGate → List (ℕ × AccountCall) → World Tables → World Tables
call_all gate [] w = w
call_all gate ((now, c) ∷ cs) w = call_all gate cs (call gate now c w).1

-- The account is there, and no row of it is active.
pub record IsLocked (id : String) (t : Tables) : Type 0 where
  pub there : has_account id t.accounts ≡ true
  pub inactive : has_active id t.accounts ≡ false

has_account-revoke_rows :
    (x id : String) (now : ℕ) (xs : List ServiceAccount)
    → has_account x (revoke_rows id now xs) ≡ has_account x xs
unfolding has_account revoke_rows
has_account-revoke_rows x id now [] = refl
has_account-revoke_rows x id now (a ∷ xs) = ground (arith, has_account-revoke_rows x id now xs)

has_active-revoke_rows :
    (x id : String) (now : ℕ) (xs : List ServiceAccount)
    → has_active x xs ≡ false
    → has_active x (revoke_rows id now xs) ≡ false
unfolding has_active revoke_rows
has_active-revoke_rows x id now [] h = refl
has_active-revoke_rows x id now (a ∷ xs) h = ground (arith, has_active-revoke_rows x id now xs)

has_active-revoke_rows_same :
    (id : String) (now : ℕ) (xs : List ServiceAccount)
    → 0 < now
    → has_active id (revoke_rows id now xs) ≡ false
unfolding has_active revoke_rows
has_active-revoke_rows_same id now [] h = refl
has_active-revoke_rows_same id now (a ∷ xs) h =
    ground (arith, has_active-revoke_rows_same id now xs h)

has_account_of_active :
    (id : String) (xs : List ServiceAccount) → has_active id xs ≡ true → has_account id xs ≡ true
unfolding has_active has_account
has_account_of_active id [] h = cc
has_account_of_active id (a ∷ xs) h = ground (arith, has_account_of_active id xs)

found_active :
    (id : String) (xs : List ServiceAccount) (a : ServiceAccount)
    → find_account id xs ≡ ok a
    → a.revoked_at ≡ 0
    → has_active a.id xs ≡ true
unfolding find_account has_active
found_active id [] a h z = cc
found_active id (x ∷ xs) a h z = ground (arith, found_active id xs a)

call-IsLocked :
    (gate : AccessGate) (now : ℕ) (c : AccountCall) (id : String) (w : World Tables)
    → IsLocked id w.tables
    → IsLocked id (call gate now c w).1.tables
unfolding call create_account delete_account issue_key revoke_key touch save_account revoke_account
    save_key revoke_one new_account validate_account has_account has_active
call-IsLocked gate now (AccountCall.create x cmd) id w l =
    let th = l.there in
    let ina = l.inactive in record { there = ground arith; inactive = ground arith }
call-IsLocked gate now (AccountCall.remove actor x) id w l =
    let th = l.there in
    let ina = l.inactive in
    record {
      there = ground (arith, has_account-revoke_rows id x now w.tables.accounts);
      inactive = ground (arith, has_active-revoke_rows id x now w.tables.accounts);
    }
call-IsLocked gate now (AccountCall.issue x token cmd) id w l =
    let th = l.there in
    let ina = l.inactive in record { there = ground arith; inactive = ground arith }
call-IsLocked gate now (AccountCall.revoke actor x key) id w l =
    let th = l.there in
    let ina = l.inactive in record { there = ground arith; inactive = ground arith }
call-IsLocked gate now (AccountCall.used key) id w l =
    let th = l.there in
    let ina = l.inactive in record { there = ground arith; inactive = ground arith }

call_all-IsLocked :
    (gate : AccessGate) (cs : List (ℕ × AccountCall)) (id : String) (w : World Tables)
    → IsLocked id w.tables
    → IsLocked id (call_all gate cs w).tables
unfolding call_all
call_all-IsLocked gate [] id w l = l
call_all-IsLocked gate ((now, c) ∷ cs) id w l =
    call_all-IsLocked gate cs id (call gate now c w).1 (call-IsLocked gate now c id w l)

delete_account-IsLocked :
    (gate : AccessGate) (now : ℕ) (actor id : String) (w : World Tables)
    → 0 < now
    → (delete_account gate now actor id w).0 ≡ ok tt
    → IsLocked id (delete_account gate now actor id w).1.tables
unfolding delete_account revoke_account
delete_account-IsLocked gate now actor id w pos h = record {
  there = ground (
    arith,
    has_account-revoke_rows id id now w.tables.accounts,
    has_account_of_active id w.tables.accounts,
  );
  inactive = ground (arith, has_active-revoke_rows_same id now w.tables.accounts pos);
}

-- What an accepted token vouches for.
pub record Accepts (hash : String → String) (now : ℕ) (raw : String) (t : Tables)
    (k : ServiceAccountKey) (a : ServiceAccount) (c : Claims) : Type 0 where
  pub stored : Memᴰ k t.keys
  pub hashed : k.token_hash ≡ hash raw
  pub account : find_account k.account_id t.accounts ≡ ok a
  pub account_active : a.revoked_at ≡ 0
  pub usable : is_usable now k ≡ true
  pub member_id : c.member_id ≡ a.id
  pub username : c.username ≡ a.name
  pub level : c.level ≡ role_level_user

find_key_for_auth-account :
    (hash : String) (t : Tables) (ks : List ServiceAccountKey)
    (p : ServiceAccountKey × ServiceAccount)
    → find_key_for_auth hash t ks ≡ ok p
    → (p.0.token_hash ≡ hash) × (find_account p.0.account_id t.accounts ≡ ok p.1)
unfolding find_key_for_auth
find_key_for_auth-account hash t [] p h = cc
find_key_for_auth-account hash t (k ∷ ks) p h =
    elim (Result-cases (find_account k.account_id t.accounts)) [
      | inl (a, f) ↦ ground (arith, find_key_for_auth-account hash t ks p)
      | inr (e, f) ↦ ground (arith, find_key_for_auth-account hash t ks p)
    ]

-- The key is one of the rows.
find_key_for_auth-stored :
    (hash : String) (t : Tables) (ks : List ServiceAccountKey)
    (p : ServiceAccountKey × ServiceAccount)
    → find_key_for_auth hash t ks ≡ ok p
    → Memᴰ p.0 ks
unfolding find_key_for_auth
find_key_for_auth-stored hash t [] p h = absurd (ground arith)
find_key_for_auth-stored hash t (k ∷ ks) p h =
    let rest : find_key_for_auth hash t ks ≡ ok p → Memᴰ p.0 (k ∷ ks) =
      λ e. Memᴰ.tail (find_key_for_auth-stored hash t ks p e) in
    elim (text_dec k.token_hash hash) [
      | no ne ↦ rest (ground arith)
      | yes eq ↦ elim (Result-cases (find_account k.account_id t.accounts)) [
        | inl (a, f) ↦ Memᴰ.head (ground arith)
        | inr (e, f) ↦ rest (ground arith)
      ]
    ]

-- A token that is accepted has the hash of a key of the table that is neither revoked nor expired,
-- of an account of the table that is not revoked, and the claims have the id and the name of that
-- account, with the level of a user.
pub authenticate-Accepts :
    (hash : String → String) (now : ℕ) (raw : String) (w : World Tables)
    (p : Claims × Option String)
    → (authenticate hash now raw w).0 ≡ ok p
    → (k : ServiceAccountKey) × (a : ServiceAccount) × Accepts hash now raw w.tables k a p.0
unfolding authenticate revoked claims_of
authenticate-Accepts hash now raw w p h =
    elim (Result-cases (find_key_for_auth (hash raw) w.tables w.tables.keys)) [
      | inl (q, f) ↦
          let j = find_key_for_auth-account (hash raw) w.tables w.tables.keys q f in
          (
            q.0,
            q.1,
            record {
              stored = find_key_for_auth-stored (hash raw) w.tables w.tables.keys q f;
              hashed = j.0;
              account = j.1;
              account_active = ground arith;
              usable = ground arith;
              member_id = ground arith;
              username = ground arith;
              level = ground arith;
            },
          )
      | inr (e, f) ↦ absurd (ground arith)
    ]

-- After a deletion of a service account that succeeded, at a time that is not 0, and any further
-- calls, no token is accepted for that account.
pub delete_account-locks :
    (gate : AccessGate) (hash : String → String) (now later : ℕ) (actor id raw : String)
    (cs : List (ℕ × AccountCall)) (w : World Tables) (p : Claims × Option String)
    → 0 < now
    → (delete_account gate now actor id w).0 ≡ ok tt
    → (authenticate hash later raw (call_all gate cs (delete_account gate now actor id w).1)).0
      ≡ ok p
    → p.0.member_id ≢ id
delete_account-locks gate hash now later actor id raw cs w p pos h q same =
    let after = (delete_account gate now actor id w).1 in
    let l =
      call_all-IsLocked gate cs id after (delete_account-IsLocked gate now actor id w pos h) in
    let (k, a, acc) = authenticate-Accepts hash later raw (call_all gate cs after) p q in
    let ina = l.inactive in
    let cl = acc.member_id in
    ground (
      arith,
      found_active k.account_id (call_all gate cs after).tables.accounts a acc.account
          acc.account_active,
    )
