-- ===== src/Auth/Traces.antt =====
-- Sequences of commands, each under its own clock: the keys stay unique and the super_admins stay.
use oma_server.Common.{
  ℕ, ◌≤◌, ◌≡◌, refl, inl, inr, String, World, arith, Result-cases, List, [], ◌∷◌, ◌∙◌, Option-cases,
  trim_space,
}
use oma_server.Auth.Role.{role_level_super_admin, level_le_super_admin}
use oma_server.Auth.Member.{
  Member, CreateMemberCommand, UpdateProfileCommand, ChangeRoleCommand, SetActiveCommand,
  validate_create, validate_change_role, normalize,
}
use oma_server.Auth.Store.{
  Table, query_one, affected, set_role_active, set_password, set_profile, update_rows,
}
use oma_server.Auth.Rows.{
  by_id, IsValid, query_one-level, standing, update_rows-IsValid, delete_rows-IsValid,
  insert_row-IsValid,
}
use oma_server.Auth.Gates.{require_active_member-tables, require_control-tables}
use oma_server.Auth.UseCase.{
  Hasher, require_active_member, require_control, with_role, new_member, create_member,
  update_profile, change_role, set_active, delete_member, change_password, reset_password,
  run_command, Command,
}
use oma_server.Auth.Hierarchy.{rank, actor_of, standing-run_command}

module _ (w : World Table) (v : IsValid w.tables) where
  update-IsValid : (m : Member) → IsValid (update_rows m.id (set_role_active m) w.tables)
  update-IsValid m = update_rows-IsValid m.id (set_role_active m) w.tables (λ r. refl) (λ r. refl) v

  update_password-IsValid :
      (id hash : String) (now : ℕ) (by : String)
      → IsValid (update_rows id (set_password hash now by) w.tables)
  update_password-IsValid id hash now by =
      update_rows-IsValid id (set_password hash now by) w.tables (λ r. refl) (λ r. refl) v

  set_profile-IsValid :
      (id email name organization : String) (now : ℕ) (by : String)
      → IsValid (update_rows id (set_profile email name organization now by) w.tables)
  set_profile-IsValid id email name organization now by =
      update_rows-IsValid id (set_profile email name organization now by) w.tables (λ r. refl)
        (λ r. refl) v

  create_member-IsValid :
      (h : Hasher) (now : ℕ) (id : String) (cmd : CreateMemberCommand)
      → IsValid (create_member h now id cmd w).1.tables
  unfolding create_member validate_create
  create_member-IsValid h now id cmd = elim (Option-cases (h.hash cmd.password)) [
    | inl broken ↦ ground (arith, require_active_member-tables cmd.actor_id w)
    | inr (hash, made) ↦ ground (
      arith,
      require_active_member-tables cmd.actor_id w,
      insert_row-IsValid (new_member h now id (normalize cmd) hash) w.tables v,
    )
  ]

  change_role-IsValid :
      (now : ℕ) (cmd : ChangeRoleCommand) → IsValid (change_role now cmd w).1.tables
  unfolding change_role affected validate_change_role
  change_role-IsValid now cmd =
      elim (Result-cases (require_control cmd.actor_id cmd.target_id w).0) [
        | inl (p, e) ↦ ground (
          arith,
          require_control-tables cmd.actor_id cmd.target_id w,
          update-IsValid (with_role cmd now p.1),
        )
        | inr (x, e) ↦ ground (arith, require_control-tables cmd.actor_id cmd.target_id w)
      ]

  set_active-IsValid : (now : ℕ) (cmd : SetActiveCommand) → IsValid (set_active now cmd w).1.tables
  unfolding set_active affected
  set_active-IsValid now cmd =
      elim (Result-cases (require_control cmd.actor_id cmd.target_id w).0) [
        | inl (p, e) ↦ ground (
          arith,
          require_control-tables cmd.actor_id cmd.target_id w,
          update-IsValid
              (record (p.1) { active = cmd.active; updated_at = now; updated_by = cmd.actor_id }),
        )
        | inr (x, e) ↦ ground (arith, require_control-tables cmd.actor_id cmd.target_id w)
      ]

  update_profile-IsValid :
      (now : ℕ) (cmd : UpdateProfileCommand) → IsValid (update_profile now cmd w).1.tables
  unfolding update_profile affected
  update_profile-IsValid now cmd = ground (
    arith,
    require_control-tables cmd.actor_id cmd.target_id w,
    require_active_member-tables cmd.actor_id w,
    set_profile-IsValid cmd.target_id (trim_space cmd.email) (trim_space cmd.display_name)
        (trim_space cmd.organization) now cmd.actor_id,
  )

  delete_member-IsValid : (a b : String) → IsValid (delete_member a b w).1.tables
  unfolding delete_member affected
  delete_member-IsValid a b =
      ground (arith, require_control-tables a b w, delete_rows-IsValid b w.tables v)

  change_password-IsValid :
      (h : Hasher) (now : ℕ) (a old new : String)
      → IsValid (change_password h now a old new w).1.tables
  unfolding change_password affected
  change_password-IsValid h now a old new = elim (Result-cases (require_active_member a w).0) [
    | inl (p, e) ↦ elim (Option-cases (h.hash new)) [
      | inl broken ↦ ground (arith, require_active_member-tables a w)
      | inr (hash, made) ↦
          ground
            (arith, require_active_member-tables a w, update_password-IsValid p.id hash now p.id)
    ]
    | inr (x, e) ↦ ground (arith, require_active_member-tables a w)
  ]

  reset_password-IsValid :
      (h : Hasher) (now : ℕ) (a b new : String) → IsValid (reset_password h now a b new w).1.tables
  unfolding reset_password affected
  reset_password-IsValid h now a b new = elim (Result-cases (require_control a b w).0) [
    | inl (p, e) ↦ elim (Option-cases (h.hash new)) [
      | inl broken ↦ ground (arith, require_control-tables a b w)
      | inr (hash, made) ↦
          ground (arith, require_control-tables a b w, update_password-IsValid b hash now p.0.id)
    ]
    | inr (x, e) ↦ ground (arith, require_control-tables a b w)
  ]

-- Every command keeps ids and names unique, whichever statements fail.
pub run_command-IsValid :
    (h : Hasher) (now : ℕ) (c : Command) (w : World Table)
    → IsValid w.tables
    → IsValid (run_command h now c w).1.tables
unfolding run_command
run_command-IsValid h now (Command.create id cmd) w v =
    ground (arith, create_member-IsValid w v h now id cmd)
run_command-IsValid h now (Command.profile cmd) w v =
    ground (arith, update_profile-IsValid w v now cmd)
run_command-IsValid h now (Command.role cmd) w v = ground (arith, change_role-IsValid w v now cmd)
run_command-IsValid h now (Command.active cmd) w v = ground (arith, set_active-IsValid w v now cmd)
run_command-IsValid h now (Command.remove a b) w v = delete_member-IsValid w v a b
run_command-IsValid h now (Command.own_password a old new) w v =
    change_password-IsValid w v h now a old new
run_command-IsValid h now (Command.other_password a b new) w v =
    reset_password-IsValid w v h now a b new

-- The server answers a sequence of commands, each at its time.
unfoldable pub run : Hasher → List (ℕ × Command) → World Table → World Table
run h [] w = w
run h ((now, c) ∷ cs) w = run h cs (run_command h now c w).1

rank_le : (id : String) (t : Table) → rank id t ≤ role_level_super_admin
unfolding rank
rank_le id t = elim (Result-cases (query_one (by_id id) t)) [
  | inl (m, e) ↦ ground (arith, query_one-level id t m e, level_le_super_admin m.role.id)
  | inr (x, e) ↦ ground arith
]

-- From a table with unique ids and names, every sequence of commands leaves one.
pub run-IsValid :
    (h : Hasher) (cs : List (ℕ × Command)) (w : World Table)
    → IsValid w.tables
    → IsValid (run h cs w).tables
unfolding run
run-IsValid h [] w v = v
run-IsValid h ((now, c) ∷ cs) w v =
    run-IsValid h cs (run_command h now c w).1 (run_command-IsValid h now c w v)

-- From a table with unique keys, no sequence of commands adds, demotes, promotes, deactivates or
-- deletes a super_admin, whoever sends them and whichever statements fail: the super_admins are,
-- row for row, those at the start, each with its id, role and active flag.
pub run-standing :
    (h : Hasher) (cs : List (ℕ × Command)) (w : World Table)
    → IsValid w.tables
    → standing role_level_super_admin (run h cs w).tables ≡ standing role_level_super_admin w.tables
unfolding run
run-standing h [] w v = refl
run-standing h ((now, c) ∷ cs) w v =
    run-standing h cs (run_command h now c w).1 (run_command-IsValid h now c w v)
    ∙ standing-run_command h now c role_level_super_admin w v (rank_le (actor_of c) w.tables)
