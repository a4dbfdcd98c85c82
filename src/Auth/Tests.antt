-- ===== src/Auth/Tests.antt =====
-- A table with a super_admin, an admin and a user, and the use cases on it.
use oma_server.Common.{
  ℕ, ◌≡◌, ◌≢◌, ◌<◌, ◌≤◌, ◌↔◌, refl, true, false, String, List, [], ◌∷◌, Option, none, some, ◌==◌,
  ok, World, arith, text_dec, Bool-cases, fails, spent,
}
use oma_server.Auth.Role.{
  can_control, level_for_role_id, is_valid_role_id, role_level_super_admin, name_for_role_id,
}
use oma_server.Auth.Member.{
  Member, LoginCommand, UpdateProfileCommand, ChangeRoleCommand, validate_change_role,
}
use oma_server.Auth.Store.{MemberRow, Table, query_one, has_id, has_username, affected}
use oma_server.Auth.Rows.{by_id, IsValid, standing}
use oma_server.Auth.UseCase.{
  Hasher, login, change_role, change_password, run_command, Command, with_role, require_control,
  require_active_member,
}
use oma_server.Auth.Gates.{Controls}
use oma_server.Auth.Hierarchy.{rank}
use oma_server.Auth.Others.{others, run_command_protects}
use oma_server.Auth.Traces.{run, run-standing}
use oma_server.Auth.Login.{Admits, ComparesHash, login_iff, login-change_password}
use oma_server.Auth.Outcomes.{change_role-ok}

abbrev row : String → ℕ → String → MemberRow
row id role_id hash = record {
  id = id;
  username = id;
  password_hash = hash;
  active = true;
  role_id = role_id;
  created_at = 0;
  updated_at = 0;
  created_by = "";
  updated_by = "";
  email = "";
  display_name = "";
  organization = "";
}

abbrev table : Table
table = row "root" 3 "toor" ∷ row "ada" 2 "lovelace" ∷ row "bob" 1 "builder" ∷ []

abbrev world : World Table
world = record { tables = table; faults = [] }

-- A password is its own hash.
abbrev hasher : Hasher
hasher = record { hash = λ s. some s; compare = λ h s. h == s }

table-IsValid : IsValid table
unfolding has_id has_username text_dec Bool-cases
table-IsValid = record { ids = (refl, (refl, (refl, tt))); names = (refl, (refl, (refl, tt))) }

abbrev promote : ChangeRoleCommand
promote = record { actor_id = "root"; target_id = "bob"; role_id = 2 }

abbrev bob : Member
bob = record {
  id = "bob";
  username = "bob";
  password_hash = "builder";
  active = true;
  role = record { id = 1; name = "user"; level = 0 };
  email = "";
  display_name = "";
  organization = "";
  created_at = 0;
  updated_at = 0;
  created_by = "";
  updated_by = "";
}

promoted : (change_role 5 promote world).0 ≡ ok (with_role promote 5 bob)
unfolding change_role validate_change_role is_valid_role_id require_control require_active_member
    fails query_one text_dec Bool-cases level_for_role_id spent can_control affected has_id
promoted = refl

change_role-ok_example :
    (p : Member) × (q : Member) × Controls table "root" "bob" p q
    × (level_for_role_id 2 < p.role.level)
    × (with_role promote 5 bob ≡ record q {
      role = record { id = 2; name = name_for_role_id 2; level = level_for_role_id 2 };
      updated_at = 5;
      updated_by = "root";
    })
    × (query_one (by_id "bob") (change_role 5 promote world).1.tables
        ≡ ok (with_role promote 5 bob))
change_role-ok_example =
    change_role-ok 5 promote world (with_role promote 5 bob) table-IsValid promoted

-- An admin deposes the super_admin, in vain, and deletes the user.
abbrev history : List (ℕ × Command)
history =
    (1, Command.active (record { actor_id = "ada"; target_id = "root"; active = false }))
    ∷ (2, Command.remove "ada" "bob")
    ∷ []

run-standing_example :
    standing role_level_super_admin (run hasher history world).tables
    ≡ standing role_level_super_admin table
run-standing_example = run-standing hasher history world table-IsValid

ada_level : rank "ada" table ≡ 1
unfolding rank query_one text_dec Bool-cases level_for_role_id
ada_level = refl

ada_rank : rank "ada" table ≤ 1
ada_rank = omega (arith, ada_level)

run_command_protects_example :
    (others 1 "ada" (run_command hasher 2 (Command.remove "ada" "bob") world).1.tables
      ≡ others 1 "ada" table)
    × (standing 1 (run_command hasher 2 (Command.remove "ada" "bob") world).1.tables
        ≡ standing 1 table)
run_command_protects_example =
    run_command_protects hasher 2 (Command.remove "ada" "bob") 1 world table-IsValid ada_rank

-- The update is written, and the statement that reads the member again fails.
abbrev late_world : World Table
late_world = record { tables = table; faults = false ∷ false ∷ true ∷ [] }

abbrev own_profile : UpdateProfileCommand
own_profile = record {
  actor_id = "bob";
  target_id = "bob";
  email = "bob@lab";
  display_name = "Bob";
  organization = "";
}

-- The token is the id of the member.
abbrev sign : Member → Option String
sign m = some m.id

abbrev credentials : String → LoginCommand
credentials password = record { username = "bob"; password = password }

login_iff_example :
    ((login hasher sign (credentials "builder") world).0 ≡ ok ("bob", bob))
    ↔ Admits hasher sign table (credentials "builder") "bob" bob
login_iff_example = login_iff hasher sign (credentials "builder") world "bob" bob refl

hasher-ComparesHash : ComparesHash hasher
hasher-ComparesHash plain hash h = ground arith

sign_total : (n : Member) → sign n ≢ none
sign_total n h = cc

bob_found : query_one (by_id "bob") table ≡ ok bob
unfolding query_one text_dec Bool-cases name_for_role_id level_for_role_id
bob_found = refl

changed : (change_password hasher 7 "bob" "builder" "new password" world).0 ≡ ok tt
unfolding change_password require_active_member fails query_one text_dec Bool-cases spent affected
    has_id
changed = refl

abbrev later : World Table
later = record {
  tables = (change_password hasher 7 "bob" "builder" "new password" world).1.tables;
  faults = [];
}

login-change_password_example :
    (token : String) × (n : Member) × (n.id ≡ "bob")
    × ((login hasher sign (credentials "new password") later).0 ≡ ok (token, n))
login-change_password_example =
    login-change_password hasher sign 7 "bob" "builder" "new password" world later bob
      hasher-ComparesHash sign_total table-IsValid bob_found changed refl refl
