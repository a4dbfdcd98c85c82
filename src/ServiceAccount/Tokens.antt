-- ===== src/ServiceAccount/Tokens.antt =====
-- A token that was issued is accepted.
use oma_server.Common.{
  ℕ, ◌≡◌, refl, true, false, String, List, [], ◌∷◌, Option, none, some, if◌then◌else◌, ok, World,
  arith, inl, inr, Result-cases, fails, subst, sym, ◌∙◌,
}
use oma_server.Auth.Member.{Claims}
use oma_server.ServiceAccount.Model.{
  ServiceAccount, ServiceAccountKey, IssueKeyCommand, revoked, is_usable,
}
use oma_server.ServiceAccount.Tables.{
  Tables, find_account, find_key_for_auth, save_key, joined_with,
}
use oma_server.ServiceAccount.Service.{
  AccessGate, issue_key, authenticate, claims_of, new_key, made, verdict, is_stale,
}

find_account-id :
    (id : String) (xs : List ServiceAccount) (a : ServiceAccount)
    → find_account id xs ≡ ok a
    → a.id ≡ id
unfolding find_account
find_account-id id [] a h = cc
find_account-id id (x ∷ xs) a h = ground (arith, find_account-id id xs a)

-- What an issued key leaves behind.
record Issued (t t' : Tables) (k : ServiceAccountKey) (a : ServiceAccount) : Type 0 where
  active : a.revoked_at ≡ 0
  account : k.account_id ≡ a.id
  rows : t' ≡ record t { keys = k ∷ t.keys }

issue_key-Issued :
    (gate : AccessGate) (now : ℕ) (id plain hashed : String) (cmd : IssueKeyCommand)
    (w : World Tables) (r : ServiceAccountKey × String) (a : ServiceAccount)
    → find_account cmd.account_id w.tables.accounts ≡ ok a
    → (issue_key gate now id (some (plain, hashed)) cmd w).0 ≡ ok r
    → Issued w.tables (issue_key gate now id (some (plain, hashed)) cmd w).1.tables r.0 a
      × (r.0.token_hash ≡ hashed)
      × (r.1 ≡ plain)
unfolding issue_key save_key new_key revoked made verdict
issue_key-Issued gate now id plain hashed cmd w r a f h = (
  record { active = ground arith; account = ground arith; rows = ground arith },
  ground arith,
  ground arith,
)

find_key_for_auth-head :
    (hash : String) (t : Tables) (k : ServiceAccountKey) (ks : List ServiceAccountKey)
    (a : ServiceAccount)
    → k.token_hash ≡ hash
    → find_account k.account_id t.accounts ≡ ok a
    → find_key_for_auth hash t (k ∷ ks) ≡ ok (k, a)
unfolding find_key_for_auth joined_with
find_key_for_auth-head hash t k ks a e f = ground arith

authenticate-accepted :
    (hash : String → String) (now : ℕ) (raw : String) (w : World Tables) (k : ServiceAccountKey)
    (a : ServiceAccount)
    → fails w ≡ false
    → find_key_for_auth (hash raw) w.tables w.tables.keys ≡ ok (k, a)
    → a.revoked_at ≡ 0
    → is_usable now k ≡ true
    → (authenticate hash now raw w).0
      ≡ ok (claims_of a, (if is_stale now k then some k.id else none))
unfolding authenticate revoked
authenticate-accepted hash now raw w k a q f z u = ground arith

-- A token that was issued, whose hash is the one that the key was given, is accepted as the account
-- it was issued for where the tables are as the issue left them, the statement does not fail and
-- the key is usable at the time.
pub authenticate-issue_key :
    (gate : AccessGate) (hash : String → String) (now later : ℕ) (id : String)
    (plain hashed : String) (cmd : IssueKeyCommand) (w w' : World Tables)
    (r : ServiceAccountKey × String)
    → hash plain ≡ hashed
    → (issue_key gate now id (some (plain, hashed)) cmd w).0 ≡ ok r
    → w'.tables ≡ (issue_key gate now id (some (plain, hashed)) cmd w).1.tables
    → fails w' ≡ false
    → is_usable later r.0 ≡ true
    → (a : ServiceAccount) × (p : Claims × Option String) × (a.id ≡ cmd.account_id)
      × (r.1 ≡ plain)
      × ((authenticate hash later r.1 w').0 ≡ ok p)
      × (p.0 ≡ claims_of a)
unfolding issue_key
authenticate-issue_key gate hash now later id plain hashed cmd w w' r law h after quiet u =
    elim (Result-cases (find_account cmd.account_id w.tables.accounts)) [
      | inl (a, f) ↦
          let (i, same_hash, same_text) = issue_key-Issued gate now id plain hashed cmd w r a f h in
          let same_id = find_account-id cmd.account_id w.tables.accounts a f in
          let rows = i.rows in
          let owner = i.account in
          let there : find_account r.0.account_id w.tables.accounts ≡ ok a =
            subst (λ x. find_account x w.tables.accounts ≡ ok a) (sym (owner ∙ same_id)) f in
          let look : find_key_for_auth (hash r.1) w'.tables w'.tables.keys ≡ ok (r.0, a) =
            subst (λ t. find_key_for_auth (hash r.1) t t.keys ≡ ok (r.0, a)) (sym (after ∙ rows))
              (find_key_for_auth-head (hash r.1) (record (w.tables) { keys = r.0 ∷ w.tables.keys })
                r.0 w.tables.keys a (ground arith) there) in
          (
            a,
            (claims_of a, (if is_stale later r.0 then some r.0.id else none)),
            same_id,
            same_text,
            authenticate-accepted hash later r.1 w' r.0 a quiet look i.active u,
            refl,
          )
      | inr (e, f) ↦ absurd (ground arith)
    ]
