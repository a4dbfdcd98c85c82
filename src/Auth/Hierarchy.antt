-- ===== src/Auth/Hierarchy.antt =====
-- No command of the use cases reaches a member at or above the level of its actor.
use oma_server.Common.{
  ℕ, ◌<◌, ◌≤◌, ◌≡◌, refl, inl, inr, true, String, ok, err, World, arith, Result-cases, Option-cases,
  trim_space,
}
use oma_server.Auth.Role.{can_control, level_for_role_id}
use oma_server.Auth.Member.{
  Member, CreateMemberCommand, UpdateProfileCommand, ChangeRoleCommand, SetActiveCommand,
  validate_create, validate_change_role, normalize,
}
use oma_server.Auth.Store.{
  Table, query_one, affected, set_role_active, set_password, set_profile, update_rows, insert_row,
}
use oma_server.Auth.Rows.{
  by_id, IsValid, LowRows, query_one-LowRows, query_one-id, query_one-level, standing,
  standing-update_rows, standing-update_rows_same, standing-delete_rows, standing-insert_row,
}
use oma_server.Auth.Gates.{
  Stands, Controls, require_active_member-Stands, require_active_member-tables,
  require_control-tables, require_control-Controls,
}
use oma_server.Auth.UseCase.{
  Hasher, require_active_member, require_control, with_role, new_member, create_member,
  update_profile, change_role, set_active, delete_member, change_password, reset_password,
  run_command, Command,
}

-- The level of the member that an id names, 0 where there is none.
unfoldable pub rank : String → Table → ℕ
rank id t = elim (query_one (by_id id) t) [ ok m ↦ m.role.level | err _ ↦ 0 ]

-- A target that the actor controls has no row at the actor's level or above.
pub Controls-LowRows :
    (k : ℕ) (a b : String) (t : Table) (p q : Member)
    → IsValid t
    → rank a t ≤ k
    → Controls t a b p q
    → LowRows k b t
unfolding rank
Controls-LowRows k a b t p q v r c =
    query_one-LowRows k b t v.ids c.target_found
      (let f = c.actor_stands.found in let u = c.above in ground arith)

module _ (k : ℕ) (w : World Table) (v : IsValid w.tables) where
  standing-set_password :
      (id hash : String) (now : ℕ) (by : String)
      → standing k (update_rows id (set_password hash now by) w.tables) ≡ standing k w.tables
  standing-set_password id hash now by =
      standing-update_rows_same k id (set_password hash now by) w.tables (λ r. refl) (λ r. refl)
        (λ r. refl)

  standing-set_profile :
      (id email name organization : String) (now : ℕ) (by : String)
      → standing k (update_rows id (set_profile email name organization now by) w.tables)
        ≡ standing k w.tables
  standing-set_profile id email name organization now by =
      standing-update_rows_same k id (set_profile email name organization now by) w.tables
        (λ r. refl) (λ r. refl) (λ r. refl)

  standing-update :
      (m : Member)
      → LowRows k m.id w.tables
      → level_for_role_id m.role.id < k
      → standing k (update_rows m.id (set_role_active m) w.tables) ≡ standing k w.tables
  standing-update m low new =
      standing-update_rows k m.id (set_role_active m) w.tables low (λ r. new)

  pub target_low :
      (a b : String) (p q : Member)
      → rank a w.tables ≤ k
      → Controls w.tables a b p q
      → LowRows k q.id w.tables
  target_low a b p q r c =
      rw (query_one-id b w.tables q c.target_found) (Controls-LowRows k a b w.tables p q v r c)

  pub target_level :
      (a b : String) (p q : Member)
      → rank a w.tables ≤ k
      → Controls w.tables a b p q
      → level_for_role_id q.role.id < k
  unfolding rank
  target_level a b p q r c =
      let f = c.actor_stands.found in
      let u = c.above in ground (arith, query_one-level b w.tables q c.target_found)

  standing-set_role :
      (cmd : ChangeRoleCommand) (now : ℕ) (p q : Member)
      → rank cmd.actor_id w.tables ≤ k
      → Controls w.tables cmd.actor_id cmd.target_id p q
      → can_control p.role.level (level_for_role_id cmd.role_id) ≡ true
      → standing k (update_rows q.id (set_role_active (with_role cmd now q)) w.tables)
        ≡ standing k w.tables
  unfolding with_role can_control rank
  standing-set_role cmd now p q r c h =
      standing-update (with_role cmd now q) (target_low cmd.actor_id cmd.target_id p q r c)
        (let f = c.actor_stands.found in ground arith)

  standing-delete_member :
      (a b : String)
      → rank a w.tables ≤ k
      → standing k (delete_member a b w).1.tables ≡ standing k w.tables
  unfolding delete_member affected
  standing-delete_member a b r = elim (Result-cases (require_control a b w).0) [
    | inl (p, e) ↦ ground (
      arith,
      require_control-tables a b w,
      standing-delete_rows k b w.tables
          (Controls-LowRows k a b w.tables p.0 p.1 v r (require_control-Controls a b w e)),
    )
    | inr (x, e) ↦ ground (arith, require_control-tables a b w)
  ]

  standing-reset_password :
      (h : Hasher) (now : ℕ) (a b new : String)
      → standing k (reset_password h now a b new w).1.tables ≡ standing k w.tables
  unfolding reset_password affected
  standing-reset_password h now a b new = elim (Result-cases (require_control a b w).0) [
    | inl (p, e) ↦ elim (Option-cases (h.hash new)) [
      | inl broken ↦ ground (arith, require_control-tables a b w)
      | inr (hash, made) ↦
          ground (arith, require_control-tables a b w, standing-set_password b hash now p.0.id)
    ]
    | inr (x, e) ↦ ground (arith, require_control-tables a b w)
  ]

  standing-set_active :
      (now : ℕ) (cmd : SetActiveCommand)
      → rank cmd.actor_id w.tables ≤ k
      → standing k (set_active now cmd w).1.tables ≡ standing k w.tables
  unfolding set_active affected
  standing-set_active now cmd r =
      elim (Result-cases (require_control cmd.actor_id cmd.target_id w).0) [
        | inl (p, e) ↦
            let c = require_control-Controls cmd.actor_id cmd.target_id w e in
            let m : Member = record (p.1) {
              active = cmd.active;
              updated_at = now;
              updated_by = cmd.actor_id;
            } in
            ground (
              arith,
              require_control-tables cmd.actor_id cmd.target_id w,
              standing-update m (target_low cmd.actor_id cmd.target_id p.0 p.1 r c)
                  (target_level cmd.actor_id cmd.target_id p.0 p.1 r c),
            )
        | inr (x, e) ↦ ground (arith, require_control-tables cmd.actor_id cmd.target_id w)
      ]

  standing-change_password :
      (h : Hasher) (now : ℕ) (a old new : String)
      → standing k (change_password h now a old new w).1.tables ≡ standing k w.tables
  unfolding change_password affected
  standing-change_password h now a old new = elim (Result-cases (require_active_member a w).0) [
    | inl (p, e) ↦ elim (Option-cases (h.hash new)) [
      | inl broken ↦ ground (arith, require_active_member-tables a w)
      | inr (hash, made) ↦
          ground (arith, require_active_member-tables a w, standing-set_password p.id hash now p.id)
    ]
    | inr (x, e) ↦ ground (arith, require_active_member-tables a w)
  ]

  standing-update_profile :
      (now : ℕ) (cmd : UpdateProfileCommand)
      → standing k (update_profile now cmd w).1.tables ≡ standing k w.tables
  unfolding update_profile affected
  standing-update_profile now cmd = ground (
    arith,
    require_control-tables cmd.actor_id cmd.target_id w,
    require_active_member-tables cmd.actor_id w,
    standing-set_profile cmd.target_id (trim_space cmd.email) (trim_space cmd.display_name)
        (trim_space cmd.organization) now cmd.actor_id,
  )

  standing-change_role :
      (now : ℕ) (cmd : ChangeRoleCommand)
      → rank cmd.actor_id w.tables ≤ k
      → standing k (change_role now cmd w).1.tables ≡ standing k w.tables
  unfolding change_role affected validate_change_role
  standing-change_role now cmd r =
      elim (Result-cases (require_control cmd.actor_id cmd.target_id w).0) [
        | inl (p, e) ↦ ground (
          arith,
          require_control-tables cmd.actor_id cmd.target_id w,
          require_control-Controls cmd.actor_id cmd.target_id w e,
          standing-set_role cmd now p.0 p.1 r
              (require_control-Controls cmd.actor_id cmd.target_id w e),
        )
        | inr (x, e) ↦ ground (arith, require_control-tables cmd.actor_id cmd.target_id w)
      ]

  standing-new_member :
      (h : Hasher) (now : ℕ) (id hash : String) (cmd : CreateMemberCommand) (p : Member)
      → rank cmd.actor_id w.tables ≤ k
      → Stands w.tables cmd.actor_id p
      → can_control p.role.level (level_for_role_id cmd.role_id) ≡ true
      → standing k (insert_row (new_member h now id cmd hash) w.tables).1 ≡ standing k w.tables
  unfolding new_member can_control rank
  standing-new_member h now id hash cmd p r c u =
      standing-insert_row k (new_member h now id cmd hash) w.tables
        (let f = c.found in ground arith)

  standing-create_member :
      (h : Hasher) (now : ℕ) (id : String) (cmd : CreateMemberCommand)
      → rank cmd.actor_id w.tables ≤ k
      → standing k (create_member h now id cmd w).1.tables ≡ standing k w.tables
  unfolding create_member validate_create
  standing-create_member h now id cmd r = elim (Option-cases (h.hash cmd.password)) [
    | inl broken ↦ ground (arith, require_active_member-tables cmd.actor_id w)
    | inr (hash, made) ↦ elim (Result-cases (require_active_member cmd.actor_id w).0) [
      | inl (p, e) ↦ ground (
        arith,
        require_active_member-tables cmd.actor_id w,
        standing-new_member h now id hash (normalize cmd) p r
            (require_active_member-Stands cmd.actor_id w e),
      )
      | inr (x, e) ↦ ground (arith, require_active_member-tables cmd.actor_id w)
    ]
  ]

abbrev pub actor_of : Command → String
actor_of (Command.create _ cmd) = cmd.actor_id
actor_of (Command.profile cmd) = cmd.actor_id
actor_of (Command.role cmd) = cmd.actor_id
actor_of (Command.active cmd) = cmd.actor_id
actor_of (Command.remove a _) = a
actor_of (Command.own_password a _ _) = a
actor_of (Command.other_password a _ _) = a

-- In a table with unique keys, a command leaves the rows at level k and above with the same ids,
-- roles and active flags, for every k that the level of its actor does not exceed.
pub standing-run_command :
    (h : Hasher) (now : ℕ) (c : Command) (k : ℕ) (w : World Table)
    → IsValid w.tables
    → rank (actor_of c) w.tables ≤ k
    → standing k (run_command h now c w).1.tables ≡ standing k w.tables
unfolding run_command
standing-run_command h now (Command.create id cmd) k w v r =
    ground (arith, standing-create_member k w v h now id cmd r)
standing-run_command h now (Command.profile cmd) k w v r =
    ground (arith, standing-update_profile k w v now cmd)
standing-run_command h now (Command.role cmd) k w v r =
    ground (arith, standing-change_role k w v now cmd r)
standing-run_command h now (Command.active cmd) k w v r =
    ground (arith, standing-set_active k w v now cmd r)
standing-run_command h now (Command.remove a b) k w v r = standing-delete_member k w v a b r
standing-run_command h now (Command.own_password a old new) k w v r =
    standing-change_password k w v h now a old new
standing-run_command h now (Command.other_password a b new) k w v r =
    standing-reset_password k w v h now a b new
