-- ===== src/Auth/UseCase.antt =====
-- application/auth/usecase.go. The clock, the fresh id and the ports of third parties (bcrypt,
-- the JWT library) are arguments of the calls. Logging is left out.
use Prim.Native.String.{len}
use oma_server.Common.{
  ℕ, Bool, true, false, not, ◌&&◌, String, Option, none, some, ltb, if◌then◌else◌, ◌==◌, trim_space,
  Result, ok, err, ◌>>=◌, ◌>>◌, pure, fail, require, refuse, lift, attempt,
}
use oma_server.Auth.Role.{
  AuthError, permission, invalid_credentials, conflict, validation, hash_error, token_error,
  role_level_admin, min_password_length, can_control, level_for_role_id, name_for_role_id,
}
use oma_server.Auth.Member.{
  Member, LoginCommand, CreateMemberCommand, UpdateProfileCommand, ChangeRoleCommand,
  SetActiveCommand, validate_create, validate_change_role,
}
use oma_server.Auth.Store.{
  Auth, find_by_id, find_by_username, save, update, set_profile, update_profile_row,
  update_password, delete,
}

-- The port `PasswordHasher`: bcrypt may fail to hash, and `compare` tells whether they match.
pub record Hasher : Type 0 where
  pub hash : String → Option String
  pub compare : String → String → Bool

or_error : Option String → AuthError → Result AuthError String
or_error none e = err e
or_error (some s) e = ok s

unfoldable pub require_active_member : String → Auth Member
require_active_member actor_id = do
  actor ← find_by_id actor_id
  require actor.active permission
  pure actor

unfoldable pub require_admin : String → Auth (Unit {0})
require_admin actor_id = do
  actor ← require_active_member actor_id
  refuse (ltb actor.role.level role_level_admin) permission

unfoldable pub require_control : String → String → Auth (Member × Member)
require_control actor_id target_id = do
  actor ← require_active_member actor_id
  refuse (ltb actor.role.level role_level_admin) permission
  target ← find_by_id target_id
  require (can_control actor.role.level target.role.level) permission
  pure (actor, target)

-- Every failure but that of the token service is `invalid_credentials`.
unfoldable pub login : Hasher → (Member → Option String) → LoginCommand → Auth (String × Member)
unfolding or_error
login h generate cmd = do
  found ← attempt (find_by_username cmd.username)
  elim found [
    | err _ ↦ fail invalid_credentials
    | ok member ↦ do
      require member.active invalid_credentials
      require (h.compare member.password_hash cmd.password) invalid_credentials
      token ← lift (or_error (generate member) token_error)
      pure (token, member)
  ]

unfoldable pub get_member : String → String → Auth Member
get_member actor_id target_id = do
  actor ← require_active_member actor_id
  refuse (not (actor.id == target_id) && ltb actor.role.level role_level_admin) permission
  if actor.id == target_id then pure actor else find_by_id target_id

unfoldable pub new_member : Hasher → ℕ → String → CreateMemberCommand → String → Member
new_member h now new_id cmd hash = record {
  id = new_id;
  username = cmd.username;
  password_hash = hash;
  active = true;
  role = record {
    id = cmd.role_id;
    name = name_for_role_id cmd.role_id;
    level = level_for_role_id cmd.role_id;
  };
  email = trim_space cmd.email;
  display_name = trim_space cmd.display_name;
  organization = trim_space cmd.organization;
  created_at = now;
  updated_at = now;
  created_by = cmd.actor_id;
  updated_by = cmd.actor_id;
}

-- The name counts as free also where the look-up fails: `Save` has the UNIQUE constraint.
abbrev taken : Result AuthError Member → Bool
taken (ok _) = true
taken (err _) = false

unfoldable pub create_member : Hasher → ℕ → String → CreateMemberCommand → Auth Member
unfolding new_member or_error
create_member h now new_id raw = do
  cmd ← lift (validate_create raw)
  actor ← require_active_member cmd.actor_id
  refuse (ltb actor.role.level role_level_admin) permission
  require (can_control actor.role.level (level_for_role_id cmd.role_id)) permission
  found ← attempt (find_by_username cmd.username)
  refuse (taken found) conflict
  hash ← lift (or_error (h.hash cmd.password) hash_error)
  save (new_member h now new_id cmd hash)
  pure (new_member h now new_id cmd hash)

abbrev discard : {A : Type 0} → Auth A → Auth (Unit {0})
discard m = m >>= λ _. pure tt

unfoldable pub update_profile : ℕ → UpdateProfileCommand → Auth Member
update_profile now cmd = do
  if not (cmd.actor_id == cmd.target_id)
      then discard (require_control cmd.actor_id cmd.target_id)
      else discard (require_active_member cmd.actor_id)
  update_profile_row cmd.target_id (
      set_profile (trim_space cmd.email) (trim_space cmd.display_name) (trim_space cmd.organization)
        now cmd.actor_id)
  find_by_id cmd.target_id

unfoldable pub with_role : ChangeRoleCommand → ℕ → Member → Member
with_role cmd now target = record target {
  role = record {
    id = cmd.role_id;
    name = name_for_role_id cmd.role_id;
    level = level_for_role_id cmd.role_id;
  };
  updated_at = now;
  updated_by = cmd.actor_id;
}

unfoldable pub change_role : ℕ → ChangeRoleCommand → Auth Member
unfolding with_role
change_role now raw = do
  cmd ← lift (validate_change_role raw)
  both ← require_control cmd.actor_id cmd.target_id
  require (can_control both.0.role.level (level_for_role_id cmd.role_id)) permission
  update (with_role cmd now both.1)
  pure (with_role cmd now both.1)

unfoldable pub set_active : ℕ → SetActiveCommand → Auth Member
set_active now cmd = do
  both ← require_control cmd.actor_id cmd.target_id
  let target' : Member = record (both.1) {
    active = cmd.active;
    updated_at = now;
    updated_by = cmd.actor_id;
  }
  update target'
  pure target'

unfoldable pub delete_member : String → String → Auth (Unit {0})
delete_member actor_id target_id = do both ← require_control actor_id target_id; delete target_id

unfoldable pub change_password : Hasher → ℕ → String → String → String → Auth (Unit {0})
unfolding or_error
change_password h now actor_id old_password new_password = do
  actor ← require_active_member actor_id
  require (h.compare actor.password_hash old_password) invalid_credentials
  refuse (ltb (len new_password) min_password_length) (validation "password must be >= 8 chars")
  hash ← lift (or_error (h.hash new_password) hash_error)
  update_password actor.id hash now actor.id

unfoldable pub reset_password : Hasher → ℕ → String → String → String → Auth (Unit {0})
unfolding or_error
reset_password h now actor_id target_id new_password = do
  both ← require_control actor_id target_id
  refuse (ltb (len new_password) min_password_length) (validation "password must be >= 8 chars")
  hash ← lift (or_error (h.hash new_password) hash_error)
  update_password target_id hash now both.0.id

-- The calls that write, as data.
pub data Command : Type 0 where
  create : String → CreateMemberCommand → Command
  profile : UpdateProfileCommand → Command
  role : ChangeRoleCommand → Command
  active : SetActiveCommand → Command
  remove : String → String → Command
  own_password : String → String → String → Command
  other_password : String → String → String → Command

unfoldable pub run_command : Hasher → ℕ → Command → Auth (Unit {0})
run_command h now (create new_id cmd) = discard (create_member h now new_id cmd)
run_command h now (profile cmd) = discard (update_profile now cmd)
run_command h now (role cmd) = discard (change_role now cmd)
run_command h now (active cmd) = discard (set_active now cmd)
run_command h now (remove actor_id target_id) = delete_member actor_id target_id
run_command h now (own_password actor_id old new) = change_password h now actor_id old new
run_command h now (other_password actor_id target_id new) =
    reset_password h now actor_id target_id new
