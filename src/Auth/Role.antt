-- ===== src/Auth/Role.antt =====
-- The role hierarchy: the levels of domain/auth/model.go and the mappings of domain/auth/service.go.
use oma_server.Common.{ℕ, ◌≤◌, ◌≡◌, Bool, true, ◌&&◌, String, arith, ltb, leb, eqb, if◌then◌else◌}

-- A `RoleLevel` is 0, 1 or 2.
abbrev pub role_level_user : ℕ
role_level_user = 0

abbrev pub role_level_admin : ℕ
role_level_admin = 1

abbrev pub role_level_super_admin : ℕ
role_level_super_admin = 2

abbrev pub role_id_user : ℕ
role_id_user = 1

abbrev pub role_id_admin : ℕ
role_id_admin = 2

abbrev pub role_id_super_admin : ℕ
role_id_super_admin = 3

abbrev pub min_password_length : ℕ
min_password_length = 8

-- `func (actor RoleLevel) CanControl(target RoleLevel) bool`
unfoldable pub can_control : ℕ → ℕ → Bool
can_control actor target = ltb target actor

unfoldable pub is_valid_role_id : ℕ → Bool
is_valid_role_id role_id = leb role_id_user role_id && leb role_id role_id_super_admin

unfoldable pub level_for_role_id : ℕ → ℕ
level_for_role_id role_id =
    if eqb role_id role_id_user
    then role_level_user
    else if eqb role_id role_id_admin
    then role_level_admin
    else if eqb role_id role_id_super_admin
    then role_level_super_admin
    else role_level_user

unfoldable pub name_for_role_id : ℕ → String
name_for_role_id role_id =
    if eqb role_id role_id_user
    then "user"
    else if eqb role_id role_id_admin
    then "admin"
    else if eqb role_id role_id_super_admin
    then "super_admin"
    else "user"

pub record Role : Type 0 where
  pub id : ℕ
  pub name : String
  pub level : ℕ

-- The errors of domain/auth, and those that a use case passes on from its ports.
pub data AuthError : Type 0 where
  not_found permission invalid_credentials invalid_token conflict : AuthError
  validation : String → AuthError
  db_error hash_error token_error : AuthError

-- On valid role ids the level follows the id, so that the order of ids is the order of control.
pub can_control-level_for_role_id :
    (a b : ℕ)
    → is_valid_role_id a ≡ true
    → is_valid_role_id b ≡ true
    → can_control (level_for_role_id a) (level_for_role_id b) ≡ ltb b a
unfolding can_control level_for_role_id is_valid_role_id
can_control-level_for_role_id a b va vb = ground arith

-- No role id has a level above the super_admin's.
pub level_le_super_admin : (role_id : ℕ) → level_for_role_id role_id ≤ role_level_super_admin
unfolding level_for_role_id
level_le_super_admin role_id = ground arith
