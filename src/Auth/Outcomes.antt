-- ===== src/Auth/Outcomes.antt =====
-- What the commands leave in the table, where they succeed and where they fail.
use oma_server.Common.{
  ℕ, ◌<◌, ◌≡◌, inl, inr, true, String, ok, World, arith, Result-cases, [], ◌∷◌, subst, sym,
}
use oma_server.Auth.Role.{can_control, level_for_role_id, is_valid_role_id, name_for_role_id}
use oma_server.Auth.Member.{Member, ChangeRoleCommand, validate_change_role}
use oma_server.Auth.Store.{
  Table, query_one, affected, set_role_active, update_rows, join, scan_member,
}
use oma_server.Auth.Rows.{by_id, IsValid, IdsDistinct, query_one-absent, query_one-id}
use oma_server.Auth.Gates.{Controls, require_control-tables, require_control-Controls}
use oma_server.Auth.UseCase.{require_control, with_role, change_role}

-- The look-up after an update of the role and the flag.
query_one-update :
    (id : String) (m n : Member) (t : Table)
    → IdsDistinct t
    → query_one (by_id id) t ≡ ok m
    → is_valid_role_id n.role.id ≡ true
    → query_one (by_id id) (update_rows id (set_role_active n) t)
      ≡ ok (record m {
        role = record {
          id = n.role.id;
          name = name_for_role_id n.role.id;
          level = level_for_role_id n.role.id;
        };
        active = n.active;
        updated_at = n.updated_at;
        updated_by = n.updated_by;
      })
unfolding query_one update_rows join scan_member is_valid_role_id
query_one-update id m n [] d h valid = cc
query_one-update id m n (r ∷ t) d h valid =
    ground (arith, query_one-update id m n t d.1, query_one-absent id t m)

query_one-with_role :
    (cmd : ChangeRoleCommand) (now : ℕ) (q : Member) (t : Table)
    → IsValid t
    → query_one (by_id cmd.target_id) t ≡ ok q
    → is_valid_role_id cmd.role_id ≡ true
    → query_one (by_id cmd.target_id) (update_rows q.id (set_role_active (with_role cmd now q)) t)
      ≡ ok (with_role cmd now q)
unfolding with_role
query_one-with_role cmd now q t v h valid =
    subst
      (λ id.
        query_one (by_id cmd.target_id) (update_rows id (set_role_active (with_role cmd now q)) t)
        ≡ ok (with_role cmd now q))
      (sym (query_one-id cmd.target_id t q h))
      (query_one-update cmd.target_id q (with_role cmd now q) t v.ids h valid)

-- A role change that succeeds was made by an active member at admin level or above, over a target
-- strictly below it, to a valid role strictly below it; and the look-up by the target's id then
-- finds exactly the member returned, which is the old target with the commanded role, its name and
-- its level, and with the time and the actor of the change; all else of the target is as before.
pub change_role-ok :
    (now : ℕ) (cmd : ChangeRoleCommand) (w : World Table) (m : Member)
    → IsValid w.tables
    → (change_role now cmd w).0 ≡ ok m
    → (p : Member) × (q : Member) × Controls w.tables cmd.actor_id cmd.target_id p q
      × (level_for_role_id cmd.role_id < p.role.level)
      × (m ≡ record q {
        role = record {
          id = cmd.role_id;
          name = name_for_role_id cmd.role_id;
          level = level_for_role_id cmd.role_id;
        };
        updated_at = now;
        updated_by = cmd.actor_id;
      })
      × (query_one (by_id cmd.target_id) (change_role now cmd w).1.tables ≡ ok m)
unfolding change_role affected validate_change_role can_control with_role
change_role-ok now cmd w m v h =
    elim (Result-cases (require_control cmd.actor_id cmd.target_id w).0) [
      | inl (p, e) ↦
          let c = require_control-Controls cmd.actor_id cmd.target_id w e in
          let t = require_control-tables cmd.actor_id cmd.target_id w in
          (
            p.0,
            p.1,
            c,
            ground arith,
            ground arith,
            ground (arith, t, query_one-with_role cmd now p.1 w.tables v c.target_found),
          )
      | inr (x, e) ↦ absurd (ground arith)
    ]
