-- ===== src/Auth/Login.antt =====
-- Who logs in, and with which password.
use oma_server.Common.{
  ℕ, ◌≡◌, ◌≢◌, ◌↔◌, ◌⊎◌, inl, inr, Bool, true, String, ok, err, World, arith, Result-cases, [], ◌∷◌,
  Option-cases, Option, none, some, ◌==◌, subst, sym, ◌∙◌, fails, Bool-cases,
}
use oma_server.Auth.Role.{AuthError, invalid_credentials, token_error}
use oma_server.Auth.Member.{Member, LoginCommand}
use oma_server.Auth.Store.{
  MemberRow, Table, query_one, affected, update_rows, set_password, join, scan_member, has_username,
}
use oma_server.Auth.Rows.{by_id, IsValid, query_one-absent, query_one-id}
use oma_server.Auth.UseCase.{Hasher, login, require_active_member, change_password}

abbrev by_name : String → MemberRow → Bool
by_name name r = r.username == name

-- The one way in.
pub record Admits (h : Hasher) (generate : Member → Option String) (t : Table) (cmd : LoginCommand)
    (token : String) (m : Member) : Type 0 where
  pub found : query_one (by_name cmd.username) t ≡ ok m
  pub active : m.active ≡ true
  pub matches : h.compare m.password_hash cmd.password ≡ true
  pub signed : generate m ≡ some token

login-Admits :
    (h : Hasher) (generate : Member → Option String) (cmd : LoginCommand) (w : World Table)
    (token : String) (m : Member)
    → (login h generate cmd w).0 ≡ ok (token, m)
    → Admits h generate w.tables cmd token m
unfolding login
login-Admits h generate cmd w token m e = ground arith

Admits-login :
    (h : Hasher) (generate : Member → Option String) (cmd : LoginCommand) (w : World Table)
    (token : String) (m : Member)
    → w.faults ≡ []
    → Admits h generate w.tables cmd token m
    → (login h generate cmd w).0 ≡ ok (token, m)
unfolding login fails
Admits-login h generate cmd w token m quiet a = let f = a.found in ground arith

-- Where no statement fails, a login returns a token and a member just where the row of the name is
-- that member, active, with a hash that the password matches, and the token is the one signed.
pub login_iff :
    (h : Hasher) (generate : Member → Option String) (cmd : LoginCommand) (w : World Table)
    (token : String) (m : Member)
    → w.faults ≡ []
    → ((login h generate cmd w).0 ≡ ok (token, m)) ↔ Admits h generate w.tables cmd token m
login_iff h generate cmd w token m quiet =
    (login-Admits h generate cmd w token m, Admits-login h generate cmd w token m quiet)

pub record Unsigned (h : Hasher) (generate : Member → Option String) (t : Table)
    (cmd : LoginCommand) (e : AuthError) : Type 0 where
  pub user : Member
  pub found : query_one (by_name cmd.username) t ≡ ok user
  pub active : user.active ≡ true
  pub matches : h.compare user.password_hash cmd.password ≡ true
  pub unsigned : generate user ≡ none
  pub error : e ≡ token_error

-- A refused login returns `invalid_credentials`, whatever was wrong with it, but where an active
-- member gave the right password and the token service failed: then it returns `token_error`.
pub login-err :
    (h : Hasher) (generate : Member → Option String) (cmd : LoginCommand) (w : World Table)
    (e : AuthError)
    → (login h generate cmd w).0 ≡ err e
    → (e ≡ invalid_credentials) ⊎ Unsigned h generate w.tables cmd e
unfolding login
login-err h generate cmd w e f = elim (Result-cases (query_one (by_name cmd.username) w.tables)) [
  | inl (m, found) ↦ elim (Bool-cases m.active) [
    | inl on ↦ elim (Bool-cases (h.compare m.password_hash cmd.password)) [
      | inl good ↦ elim (Option-cases (generate m)) [
        | inl unsigned ↦ elim (Bool-cases (fails w)) [
          | inl lost ↦ inl (ground arith)
          | inr seen ↦ inr (record {
            user = m;
            found = found;
            active = on;
            matches = good;
            unsigned = unsigned;
            error = ground arith;
          })
        ]
        | inr (token, signed) ↦ inl (ground arith)
      ]
      | inr wrong ↦ inl (ground arith)
    ]
    | inr off ↦ inl (ground arith)
  ]
  | inr (x, missing) ↦ inl (ground arith)
]

has_username_of_found :
    (id : String) (t : Table) (m : Member)
    → query_one (by_id id) t ≡ ok m
    → has_username m.username t ≡ true
unfolding query_one has_username join scan_member
has_username_of_found id [] m h = cc
has_username_of_found id (r ∷ t) m h = ground (arith, has_username_of_found id t m)

-- After a change of the password the name still finds the member, with the new hash.
query_one-set_password :
    (id hash by : String) (now : ℕ) (t : Table) (m : Member)
    → IsValid t
    → query_one (by_id id) t ≡ ok m
    → query_one (by_name m.username) (update_rows id (set_password hash now by) t)
      ≡ ok (record m { password_hash = hash; updated_at = now; updated_by = by })
unfolding query_one update_rows join scan_member
query_one-set_password id hash by now [] m v h = cc
query_one-set_password id hash by now (r ∷ t) m v h = ground (
  arith,
  has_username_of_found id t m,
  query_one-absent id t m,
  query_one-set_password id hash by now t m (record { ids = v.ids.1; names = v.names.1 }),
)

-- bcrypt accepts the text that a hash was made from.
abbrev pub ComparesHash : Hasher → Type 0
ComparesHash h = (plain hash : String) → h.hash plain ≡ some hash → h.compare hash plain ≡ true

change_password-ok :
    (h : Hasher) (now : ℕ) (id old new hash : String) (w : World Table) (m : Member)
    → query_one (by_id id) w.tables ≡ ok m
    → h.hash new ≡ some hash
    → (change_password h now id old new w).0 ≡ ok tt
    → ((change_password h now id old new w).1.tables
        ≡ update_rows id (set_password hash now m.id) w.tables)
      × (m.active ≡ true)
unfolding change_password affected require_active_member
change_password-ok h now id old new hash w m found made done =
    ground (arith, query_one-id id w.tables m found)

change_password-hashes :
    (h : Hasher) (now : ℕ) (id old new : String) (w : World Table)
    → h.hash new ≡ none
    → (change_password h now id old new w).0 ≢ ok tt
unfolding change_password
change_password-hashes h now id old new w broken done = ground arith

-- In a table with unique keys, for a hasher that accepts the texts its hashes were made from and a
-- token service that signs for everybody: a member whose password change has succeeded logs in
-- with the new password, by the name in the row, once statements no longer fail.
pub login-change_password :
    (h : Hasher) (generate : Member → Option String) (now : ℕ) (id old new : String)
    (w w' : World Table) (m : Member)
    → ComparesHash h
    → ((n : Member) → generate n ≢ none)
    → IsValid w.tables
    → query_one (by_id id) w.tables ≡ ok m
    → (change_password h now id old new w).0 ≡ ok tt
    → w'.tables ≡ (change_password h now id old new w).1.tables
    → w'.faults ≡ []
    → (token : String) × (n : Member) × (n.id ≡ id)
      × ((login h generate (record { username = m.username; password = new }) w').0 ≡ ok (token, n))
login-change_password h generate now id old new w w' m law signs v found done after quiet =
    elim (Option-cases (h.hash new)) [
      | inl broken ↦ absurd (change_password-hashes h now id old new w broken done)
      | inr (hash, made) ↦
          let ok_facts = change_password-ok h now id old new hash w m found made done in
          let n : Member = record m { password_hash = hash; updated_at = now; updated_by = m.id } in
          elim (Option-cases (generate n)) [
            | inl unsigned ↦ absurd (signs n unsigned)
            | inr (token, signed) ↦ (
              token,
              n,
              query_one-id id w.tables m found,
              Admits-login h generate (record { username = m.username; password = new }) w' token n
                  quiet
                  (record {
                    found =
                        subst (λ t. query_one (by_name m.username) t ≡ ok n)
                          (sym (after ∙ ok_facts.0))
                          (query_one-set_password id hash m.id now w.tables m v found);
                    active = ok_facts.1;
                    matches = law new hash made;
                    signed = signed;
                  }),
            )
          ]
    ]
