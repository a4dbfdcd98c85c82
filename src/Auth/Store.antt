-- ===== src/Auth/Store.antt =====
-- The `members` table joined with the seeded `roles`: adapter/out/db/member_repository.go. A row
-- keeps its role id; a NULL text and "" are read as one.
use oma_server.Common.{
  ℕ, Bool, false, ◌||◌, List, [], ◌∷◌, Option, none, some, String, if◌then◌else◌, eqb, ◌==◌, Result,
  ok, err, Action, World, query, statement,
}
use oma_server.Auth.Role.{Role, AuthError, not_found, db_error, level_for_role_id, name_for_role_id}
use oma_server.Auth.Member.{Member}

pub record MemberRow : Type 0 where
  pub id : String
  pub username : String
  pub password_hash : String
  pub active : Bool
  pub role_id : ℕ
  pub created_at : ℕ
  pub updated_at : ℕ
  pub created_by : String
  pub updated_by : String
  pub email : String
  pub display_name : String
  pub organization : String

abbrev pub Table : Type 0
Table = List MemberRow

-- The rows that migration 00001 puts into `roles`.
abbrev seeded_role : ℕ → Role
seeded_role n = record { id = n; name = name_for_role_id n; level = level_for_role_id n }

abbrev pub roles : List Role
roles = seeded_role 1 ∷ seeded_role 2 ∷ seeded_role 3 ∷ []

find_role : ℕ → List Role → Option Role
find_role n [] = none
find_role n (r ∷ rs) = if eqb r.id n then some r else find_role n rs

-- `scanMember`
unfoldable pub scan_member : MemberRow → Role → Member
scan_member r role = record {
  id = r.id;
  username = r.username;
  password_hash = r.password_hash;
  active = r.active;
  role = role;
  email = r.email;
  display_name = r.display_name;
  organization = r.organization;
  created_at = r.created_at;
  updated_at = r.updated_at;
  created_by = r.created_by;
  updated_by = r.updated_by;
}

-- `FROM members m JOIN roles r ON r.id = m.role_id`
unfoldable pub join : MemberRow → Option Member
unfolding find_role scan_member
join r = elim (find_role r.role_id roles) [ none ↦ none | some role ↦ some (scan_member r role) ]

-- `queryOne`: the first row that passes the test of the WHERE clause.
unfoldable pub query_one : (MemberRow → Bool) → Table → Result AuthError Member
unfolding join
query_one test [] = err not_found
query_one test (r ∷ t) =
    let later = query_one test t in
    if test r then elim (join r) [ none ↦ later | some m ↦ ok m ] else later

unfoldable pub has_id : String → Table → Bool
has_id id [] = false
has_id id (r ∷ t) = r.id == id || has_id id t

unfoldable pub has_username : String → Table → Bool
has_username name [] = false
has_username name (r ∷ t) = r.username == name || has_username name t

unfoldable pub row_of : Member → MemberRow
row_of m = record {
  id = m.id;
  username = m.username;
  password_hash = m.password_hash;
  active = m.active;
  role_id = m.role.id;
  created_at = m.created_at;
  updated_at = m.updated_at;
  created_by = m.created_by;
  updated_by = m.updated_by;
  email = m.email;
  display_name = m.display_name;
  organization = m.organization;
}

-- `INSERT INTO members`: the primary key and the UNIQUE constraint on the name hold.
unfoldable pub insert_row : Member → Table → Result AuthError (Unit {0}) × Table
unfolding row_of
insert_row m t =
    if has_id m.id t || has_username m.username t then (err db_error, t) else (ok tt, row_of m ∷ t)

unfoldable pub update_rows : String → (MemberRow → MemberRow) → Table → Table
update_rows id f [] = []
update_rows id f (r ∷ t) = (if r.id == id then f r else r) ∷ update_rows id f t

unfoldable pub delete_rows : String → Table → Table
delete_rows id [] = []
delete_rows id (r ∷ t) = if r.id == id then delete_rows id t else r ∷ delete_rows id t

-- `affectedOrNotFound`, over the rows as SQLite counts them: a row that is written as it was counts.
unfoldable pub affected : String → (Table → Table) → Table → Result AuthError (Unit {0}) × Table
affected id change t = if has_id id t then (ok tt, change t) else (err not_found, t)

abbrev pub Auth : Type 0 → Type 0
Auth A = Action (World Table) AuthError A

abbrev pub find_by_id : String → Auth Member
find_by_id id = query db_error (query_one (λ r. r.id == id))

abbrev pub find_by_username : String → Auth Member
find_by_username name = query db_error (query_one (λ r. r.username == name))

abbrev pub save : Member → Auth (Unit {0})
save m = statement db_error (insert_row m)

-- `Update`: the role, the flag and the audit fields.
abbrev pub set_role_active : Member → MemberRow → MemberRow
set_role_active m r = record r {
  role_id = m.role.id;
  active = m.active;
  updated_at = m.updated_at;
  updated_by = m.updated_by;
}

abbrev pub update : Member → Auth (Unit {0})
update m = statement db_error (affected m.id (update_rows m.id (set_role_active m)))

abbrev pub set_profile : String → String → String → ℕ → String → MemberRow → MemberRow
set_profile email display_name organization now by r = record r {
  email = email;
  display_name = display_name;
  organization = organization;
  updated_at = now;
  updated_by = by;
}

abbrev pub update_profile_row : String → (MemberRow → MemberRow) → Auth (Unit {0})
update_profile_row id change = statement db_error (affected id (update_rows id change))

abbrev pub set_password : String → ℕ → String → MemberRow → MemberRow
set_password hash now by r = record r { password_hash = hash; updated_at = now; updated_by = by }

abbrev pub update_password : String → String → ℕ → String → Auth (Unit {0})
update_password id hash now by =
    statement db_error (affected id (update_rows id (set_password hash now by)))

abbrev pub delete : String → Auth (Unit {0})
delete id = statement db_error (affected id (delete_rows id))
