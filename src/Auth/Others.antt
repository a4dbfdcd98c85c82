-- ===== src/Auth/Others.antt =====
-- No command of the use cases writes to another member at or above the level of its actor.
use oma_server.Common.{
  ℕ, ◌<◌, ◌≤◌, ◌≡◌, refl, inl, inr, not, true, ◌&&◌, String, List, [], ◌∷◌, if◌then◌else◌, leb,
  ◌==◌, World, arith, Result-cases, Option-cases, trim_space, text_dec,
}
use oma_server.Auth.Role.{can_control, level_for_role_id}
use oma_server.Auth.Member.{
  Member, CreateMemberCommand, UpdateProfileCommand, ChangeRoleCommand, SetActiveCommand,
  validate_create, validate_change_role, normalize,
}
use oma_server.Auth.Store.{
  MemberRow, Table, affected, set_role_active, set_password, set_profile, update_rows, insert_row,
  delete_rows,
}
use oma_server.Auth.Rows.{IsValid, LowRows, level_of_row, query_one-id, standing}
use oma_server.Auth.Gates.{
  Stands, Controls, require_active_member-Stands, require_active_member-tables,
  require_control-tables, require_control-Controls,
}
use oma_server.Auth.Hierarchy.{
  rank, actor_of, standing-run_command, Controls-LowRows, target_low, target_level,
}
use oma_server.Auth.UseCase.{
  Hasher, require_active_member, require_control, with_role, new_member, create_member,
  update_profile, change_role, set_active, delete_member, change_password, reset_password,
  run_command, Command,
}

-- The rows at level k or above but those of one id, with all their columns.
unfoldable pub others : ℕ → String → Table → List MemberRow
others k actor [] = []
others k actor (r ∷ t) =
    let rest = others k actor t in
    if leb k (level_of_row r) && not (r.id == actor) then r ∷ rest else rest

others-update_rows :
    (k : ℕ) (actor id : String) (f : MemberRow → MemberRow) (t : Table)
    → LowRows k id t
    → ((r : MemberRow) → level_of_row r < k → level_of_row (f r) < k)
    → others k actor (update_rows id f t) ≡ others k actor t
unfolding others update_rows
others-update_rows k actor id f [] low new = refl
others-update_rows k actor id f (r ∷ t) low new =
    ground (arith, others-update_rows k actor id f t low.1 new, low.0, new r)

others-update_own :
    (k : ℕ) (actor : String) (f : MemberRow → MemberRow) (t : Table)
    → ((r : MemberRow) → (f r).id ≡ r.id)
    → others k actor (update_rows actor f t) ≡ others k actor t
unfolding others update_rows
others-update_own k actor f [] i = refl
others-update_own k actor f (r ∷ t) i = ground (arith, others-update_own k actor f t i, i r)

others-delete_rows :
    (k : ℕ) (actor id : String) (t : Table)
    → LowRows k id t
    → others k actor (delete_rows id t) ≡ others k actor t
unfolding others delete_rows
others-delete_rows k actor id [] low = refl
others-delete_rows k actor id (r ∷ t) low =
    ground (arith, others-delete_rows k actor id t low.1, low.0)

others-insert_row :
    (k : ℕ) (actor : String) (m : Member) (t : Table)
    → level_for_role_id m.role.id < k
    → others k actor (insert_row m t).1 ≡ others k actor t
unfolding others insert_row
others-insert_row k actor m t low = ground arith

module _ (k : ℕ) (w : World Table) (v : IsValid w.tables) where
  others-update :
      (actor : String) (m : Member)
      → LowRows k m.id w.tables
      → level_for_role_id m.role.id < k
      → others k actor (update_rows m.id (set_role_active m) w.tables) ≡ others k actor w.tables
  others-update actor m low new =
      others-update_rows k actor m.id (set_role_active m) w.tables low (λ r _. new)

  others-set_role :
      (actor : String) (cmd : ChangeRoleCommand) (now : ℕ) (p q : Member)
      → rank cmd.actor_id w.tables ≤ k
      → Controls w.tables cmd.actor_id cmd.target_id p q
      → can_control p.role.level (level_for_role_id cmd.role_id) ≡ true
      → others k actor (update_rows q.id (set_role_active (with_role cmd now q)) w.tables)
        ≡ others k actor w.tables
  unfolding with_role can_control rank
  others-set_role actor cmd now p q r c h =
      others-update actor (with_role cmd now q)
        (target_low k w v cmd.actor_id cmd.target_id p q r c)
        (let f = c.actor_stands.found in ground arith)

  others-delete_member :
      (a b : String)
      → rank a w.tables ≤ k
      → others k a (delete_member a b w).1.tables ≡ others k a w.tables
  unfolding delete_member affected
  others-delete_member a b r = elim (Result-cases (require_control a b w).0) [
    | inl (p, e) ↦ ground (
      arith,
      require_control-tables a b w,
      others-delete_rows k a b w.tables
          (Controls-LowRows k a b w.tables p.0 p.1 v r (require_control-Controls a b w e)),
    )
    | inr (x, e) ↦ ground (arith, require_control-tables a b w)
  ]

  others-reset_password :
      (h : Hasher) (now : ℕ) (a b new : String)
      → rank a w.tables ≤ k
      → others k a (reset_password h now a b new w).1.tables ≡ others k a w.tables
  unfolding reset_password affected
  others-reset_password h now a b new r = elim (Result-cases (require_control a b w).0) [
    | inl (p, e) ↦ elim (Option-cases (h.hash new)) [
      | inl broken ↦ ground (arith, require_control-tables a b w)
      | inr (hash, made) ↦ ground (
        arith,
        require_control-tables a b w,
        others-update_rows k a b (set_password hash now p.0.id) w.tables
            (Controls-LowRows k a b w.tables p.0 p.1 v r (require_control-Controls a b w e))
            (λ r l. l),
      )
    ]
    | inr (x, e) ↦ ground (arith, require_control-tables a b w)
  ]

  others-set_active :
      (now : ℕ) (cmd : SetActiveCommand)
      → rank cmd.actor_id w.tables ≤ k
      → others k cmd.actor_id (set_active now cmd w).1.tables ≡ others k cmd.actor_id w.tables
  unfolding set_active affected
  others-set_active now cmd r =
      elim (Result-cases (require_control cmd.actor_id cmd.target_id w).0) [
        | inl (p, e) ↦
            let c = require_control-Controls cmd.actor_id cmd.target_id w e in
            let m : Member = record (p.1) {
              active = cmd.active;
              updated_at = now;
              updated_by = cmd.actor_id;
            } in
            ground (
              arith,
              require_control-tables cmd.actor_id cmd.target_id w,
              others-update cmd.actor_id m (target_low k w v cmd.actor_id cmd.target_id p.0 p.1 r c)
                  (target_level k w v cmd.actor_id cmd.target_id p.0 p.1 r c),
            )
        | inr (x, e) ↦ ground (arith, require_control-tables cmd.actor_id cmd.target_id w)
      ]

  others-change_password :
      (h : Hasher) (now : ℕ) (a old new : String)
      → others k a (change_password h now a old new w).1.tables ≡ others k a w.tables
  unfolding change_password affected
  others-change_password h now a old new = elim (Result-cases (require_active_member a w).0) [
    | inl (p, e) ↦
        let own = query_one-id a w.tables p (require_active_member-Stands a w e).found in
        elim (Option-cases (h.hash new)) [
          | inl broken ↦ ground (arith, require_active_member-tables a w)
          | inr (hash, made) ↦ ground (
            arith,
            require_active_member-tables a w,
            others-update_own k a (set_password hash now p.id) w.tables (λ r. refl),
          )
        ]
    | inr (x, e) ↦ ground (arith, require_active_member-tables a w)
  ]

  others-update_profile :
      (now : ℕ) (cmd : UpdateProfileCommand)
      → rank cmd.actor_id w.tables ≤ k
      → others k cmd.actor_id (update_profile now cmd w).1.tables ≡ others k cmd.actor_id w.tables
  unfolding update_profile affected
  others-update_profile now cmd r =
      let change =
        set_profile (trim_space cmd.email) (trim_space cmd.display_name)
          (trim_space cmd.organization) now cmd.actor_id in
      elim (text_dec cmd.actor_id cmd.target_id) [
        | yes own ↦ ground (
          arith,
          require_active_member-tables cmd.actor_id w,
          others-update_own k cmd.actor_id change w.tables (λ r. refl),
        )
        | no ne ↦ elim (Result-cases (require_control cmd.actor_id cmd.target_id w).0) [
          | inl (p, e) ↦ ground (
            arith,
            require_control-tables cmd.actor_id cmd.target_id w,
            others-update_rows k cmd.actor_id cmd.target_id change w.tables
                (Controls-LowRows k cmd.actor_id cmd.target_id w.tables p.0 p.1 v r
                  (require_control-Controls cmd.actor_id cmd.target_id w e))
                (λ r l. l),
          )
          | inr (x, e) ↦ ground (arith, require_control-tables cmd.actor_id cmd.target_id w)
        ]
      ]

  others-change_role :
      (now : ℕ) (cmd : ChangeRoleCommand)
      → rank cmd.actor_id w.tables ≤ k
      → others k cmd.actor_id (change_role now cmd w).1.tables ≡ others k cmd.actor_id w.tables
  unfolding change_role affected validate_change_role
  others-change_role now cmd r =
      elim (Result-cases (require_control cmd.actor_id cmd.target_id w).0) [
        | inl (p, e) ↦ ground (
          arith,
          require_control-tables cmd.actor_id cmd.target_id w,
          require_control-Controls cmd.actor_id cmd.target_id w e,
          others-set_role cmd.actor_id cmd now p.0 p.1 r
              (require_control-Controls cmd.actor_id cmd.target_id w e),
        )
        | inr (x, e) ↦ ground (arith, require_control-tables cmd.actor_id cmd.target_id w)
      ]

  others-new_member :
      (h : Hasher) (now : ℕ) (id hash : String) (cmd : CreateMemberCommand) (p : Member)
      → rank cmd.actor_id w.tables ≤ k
      → Stands w.tables cmd.actor_id p
      → can_control p.role.level (level_for_role_id cmd.role_id) ≡ true
      → others k cmd.actor_id (insert_row (new_member h now id cmd hash) w.tables).1
        ≡ others k cmd.actor_id w.tables
  unfolding new_member can_control rank
  others-new_member h now id hash cmd p r c u =
      others-insert_row k cmd.actor_id (new_member h now id cmd hash) w.tables
        (let f = c.found in ground arith)

  others-create_member :
      (h : Hasher) (now : ℕ) (id : String) (cmd : CreateMemberCommand)
      → rank cmd.actor_id w.tables ≤ k
      → others k cmd.actor_id (create_member h now id cmd w).1.tables
        ≡ others k cmd.actor_id w.tables
  unfolding create_member validate_create
  others-create_member h now id cmd r = elim (Option-cases (h.hash cmd.password)) [
    | inl broken ↦ ground (arith, require_active_member-tables cmd.actor_id w)
    | inr (hash, made) ↦ elim (Result-cases (require_active_member cmd.actor_id w).0) [
      | inl (p, e) ↦ ground (
        arith,
        require_active_member-tables cmd.actor_id w,
        others-new_member h now id hash (normalize cmd) p r
            (require_active_member-Stands cmd.actor_id w e),
      )
      | inr (x, e) ↦ ground (arith, require_active_member-tables cmd.actor_id w)
    ]
  ]

others-run_command :
    (h : Hasher) (now : ℕ) (c : Command) (k : ℕ) (w : World Table)
    → IsValid w.tables
    → rank (actor_of c) w.tables ≤ k
    → others k (actor_of c) (run_command h now c w).1.tables ≡ others k (actor_of c) w.tables
unfolding run_command
others-run_command h now (Command.create id cmd) k w v r =
    ground (arith, others-create_member k w v h now id cmd r)
others-run_command h now (Command.profile cmd) k w v r =
    ground (arith, others-update_profile k w v now cmd r)
others-run_command h now (Command.role cmd) k w v r =
    ground (arith, others-change_role k w v now cmd r)
others-run_command h now (Command.active cmd) k w v r =
    ground (arith, others-set_active k w v now cmd r)
others-run_command h now (Command.remove a b) k w v r = others-delete_member k w v a b r
others-run_command h now (Command.own_password a old new) k w v r =
    others-change_password k w v h now a old new
others-run_command h now (Command.other_password a b new) k w v r =
    others-reset_password k w v h now a b new r

-- In a table with unique keys, for every k that the level of a command's actor does not exceed:
-- the rows at level k and above of all other members stay as they are, in every column, and those
-- at level k and above of anybody, the actor too, keep their ids, roles and active flags.
pub run_command_protects :
    (h : Hasher) (now : ℕ) (c : Command) (k : ℕ) (w : World Table)
    → IsValid w.tables
    → rank (actor_of c) w.tables ≤ k
    → (others k (actor_of c) (run_command h now c w).1.tables ≡ others k (actor_of c) w.tables)
      × (standing k (run_command h now c w).1.tables ≡ standing k w.tables)
run_command_protects h now c k w v r =
    (others-run_command h now c k w v r, standing-run_command h now c k w v r)
