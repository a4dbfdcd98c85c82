-- ===== src/Auth/Gates.antt =====
-- What the gates of application/auth/usecase.go let through.
use oma_server.Common.{◌<◌, ◌≤◌, ◌≡◌, true, String, ok, World, arith}
use oma_server.Auth.Role.{role_level_admin, can_control}
use oma_server.Auth.Member.{Member}
use oma_server.Auth.Store.{Table, query_one}
use oma_server.Auth.Rows.{by_id}
use oma_server.Auth.UseCase.{require_active_member, require_control}

-- The row that the id finds is active and has the level.
pub record Stands (t : Table) (id : String) (m : Member) : Type 0 where
  pub found : query_one (by_id id) t ≡ ok m
  pub active : m.active ≡ true

pub require_active_member-Stands :
    (id : String) (w : World Table) {m : Member}
    → (require_active_member id w).0 ≡ ok m
    → Stands w.tables id m
unfolding require_active_member
require_active_member-Stands id w h = ground arith

-- A gate only reads.
pub require_active_member-tables :
    (id : String) (w : World Table) → (require_active_member id w).1.tables ≡ w.tables
unfolding require_active_member
require_active_member-tables id w = ground arith

pub require_control-tables :
    (a b : String) (w : World Table) → (require_control a b w).1.tables ≡ w.tables
unfolding require_control require_active_member
require_control-tables a b w = ground arith

pub record Controls (t : Table) (a b : String) (actor target : Member) : Type 0 where
  pub actor_stands : Stands t a actor
  pub is_admin : role_level_admin ≤ actor.role.level
  pub target_found : query_one (by_id b) t ≡ ok target
  pub above : target.role.level < actor.role.level

pub require_control-Controls :
    (a b : String) (w : World Table) {p : Member × Member}
    → (require_control a b w).0 ≡ ok p
    → Controls w.tables a b p.0 p.1
unfolding require_control require_active_member can_control
require_control-Controls a b w {p} h = ground arith
