-- ===== src/Auth/Member.antt =====
-- The member entity, the commands and their validation: domain/auth/model.go. Times are unix seconds.
use Prim.Native.String.{len}
use oma_server.Common.{ℕ, Bool, String, ltb, if◌then◌else◌, not, Result, ok, err, trim_space, ◌==◌}
use oma_server.Auth.Role.{Role, AuthError, validation, min_password_length, is_valid_role_id}

pub record Member : Type 0 where
  pub id : String
  pub username : String
  pub password_hash : String
  pub active : Bool
  pub role : Role
  pub email : String
  pub display_name : String
  pub organization : String
  pub created_at : ℕ
  pub updated_at : ℕ
  pub created_by : String
  pub updated_by : String

-- `func (m Member) DisplayLabel() string`
unfoldable pub display_label : Member → String
display_label m = if m.display_name == "" then m.username else m.display_name

pub record Claims : Type 0 where
  pub member_id : String
  pub username : String
  pub level : ℕ

pub record LoginCommand : Type 0 where
  pub username : String
  pub password : String

pub record CreateMemberCommand : Type 0 where
  pub username : String
  pub password : String
  pub role_id : ℕ
  pub actor_id : String
  pub email : String
  pub display_name : String
  pub organization : String

pub record UpdateProfileCommand : Type 0 where
  pub actor_id : String
  pub target_id : String
  pub email : String
  pub display_name : String
  pub organization : String

pub record ChangeRoleCommand : Type 0 where
  pub actor_id : String
  pub target_id : String
  pub role_id : ℕ

pub record SetActiveCommand : Type 0 where
  pub actor_id : String
  pub target_id : String
  pub active : Bool

unfoldable pub normalize : CreateMemberCommand → CreateMemberCommand
normalize c = record c { username = trim_space c.username }

-- `Validate` normalises the command in place: the command comes back with the verdict.
unfoldable pub validate_create : CreateMemberCommand → Result AuthError CreateMemberCommand
unfolding normalize
validate_create c =
    let n = normalize c in
    if n.username == ""
    then err (validation "username is required")
    else if ltb (len n.password) min_password_length
    then err (validation "password must be >= 8 chars")
    else if not (is_valid_role_id n.role_id)
    then err (validation "invalid role_id")
    else ok n

unfoldable pub validate_change_role : ChangeRoleCommand → Result AuthError ChangeRoleCommand
validate_change_role c =
    if not (is_valid_role_id c.role_id) then err (validation "invalid role_id") else ok c
