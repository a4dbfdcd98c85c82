-- ===== src/ToolPolicy/Coherence.antt =====
-- After each update that succeeds, the cache holds what the tables say, and the policy that the
-- handlers enforce is the one that was commanded.
use oma_server.Common.{
  ℕ, ◌≡◌, ◌≢◌, refl, true, false, String, [], Option, none, some, if◌then◌else◌, ok, World, lookup,
  arith, inl, inr, Bool-cases, contains, trim_space, contains_iff, ◌∙◌, is_empty, ◌&&◌,
}
use oma_server.ToolPolicy.Policy.{
  Settings, MemberPolicy, normalize, normalize_member, norm_mode, is_empty_policy, clean_list,
}
use oma_server.ToolPolicy.Cleaning.{normalize_idem, normalize_member_idem, norm_mode_idem}
use oma_server.ToolPolicy.Manager.{
  Tables, Manager, Gate, MemberUpdateCommand, read_settings, save_settings, save_policy, by_member,
  reload, new_manager, current, member_policy, stamped, update_settings, commanded,
  update_member_policy, effective_policy, write_override,
}
use oma_server.ToolPolicy.Overrides.{
  PoliciesDistinct, kept, override_of, lookup-by_member, override_of-update_policy,
  override_of-delete_policy, has_policy-update_policy, update_policy-PoliciesDistinct,
  delete_policy-PoliciesDistinct,
}
use oma_server.ToolPolicy.Floor.{allows, effective_blocked}
use oma_server.ToolPolicy.Cleaning.{contains-clean_list}

-- The cache holds the normalised settings and overrides of the tables.
pub record IsCoherent (m : Manager) : Type 0 where
  pub settings : m.cur ≡ some (normalize (read_settings m.db.tables))
  pub overrides : m.members ≡ some (by_member [] m.db.tables.policies)

reload-tables : (m : Manager) → (reload m).1.db.tables ≡ m.db.tables
unfolding reload
reload-tables m = ground arith

reload-IsCoherent : (m : Manager) → (reload m).0 ≡ ok tt → IsCoherent (reload m).1
unfolding reload
reload-IsCoherent m h = ground arith

-- A load, an update of the settings and an update of an override each leave the cache coherent,
-- where they succeed.
pub new_manager-IsCoherent :
    (w : World Tables) → (new_manager w).0 ≡ ok tt → IsCoherent (new_manager w).1
unfolding new_manager
new_manager-IsCoherent w h = reload-IsCoherent (record { db = w; cur = none; members = none }) h

save_settings-settings :
    (s : Settings) (m : Manager)
    → (save_settings s m).0 ≡ ok tt
    → ((save_settings s m).1.db.tables.settings ≡ some s)
      × ((save_settings s m).1.db.tables.policies ≡ m.db.tables.policies)
unfolding save_settings
save_settings-settings s m h = ground arith

normalize-stamped :
    (now : ℕ) (actor_id : String) (s : Settings)
    → normalize (record (stamped now actor_id s) { mode = norm_mode (norm_mode s.mode) })
      ≡ stamped now actor_id s
unfolding stamped normalize
normalize-stamped now actor_id s = ground (arith, normalize_idem s, norm_mode_idem s.mode)

stamped-mode :
    (now : ℕ) (actor_id : String) (s : Settings) → (stamped now actor_id s).mode ≡ norm_mode s.mode
unfolding stamped normalize
stamped-mode now actor_id s = refl

read-stamped :
    (now : ℕ) (actor_id : String) (s : Settings) (t : Tables)
    → t.settings ≡ some (stamped now actor_id s)
    → normalize (read_settings t) ≡ stamped now actor_id s
unfolding read_settings
read-stamped now actor_id s t h =
    ground (arith, normalize-stamped now actor_id s, stamped-mode now actor_id s)

-- An update of the settings that succeeds was let through by the gate; the cache is coherent, the
-- overrides in the table are as before, and the current settings are the commanded ones,
-- normalised, with the audit fields.
pub update_settings-ok :
    (gate : Gate) (now : ℕ) (actor_id : String) (s : Settings) (m : Manager)
    → (update_settings gate now actor_id s m).0 ≡ ok tt
    → let m' = (update_settings gate now actor_id s m).1 in
      (gate actor_id ≡ none)
      × IsCoherent m'
      × (current m' ≡ stamped now actor_id s)
      × (m'.db.tables.policies ≡ m.db.tables.policies)
unfolding update_settings current
update_settings-ok gate now actor_id s m h =
    let saved = (save_settings (stamped now actor_id s) m).1 in
    ground (
      arith,
      save_settings-settings (stamped now actor_id s) m,
      reload-tables saved,
      reload-IsCoherent saved,
      read-stamped now actor_id s saved.db.tables,
    )

save_policy-policies :
    (n : MemberPolicy) (m : Manager)
    → PoliciesDistinct m.db.tables.policies
    → (save_policy n m).0 ≡ ok tt
    → let t = (save_policy n m).1.db.tables in
      PoliciesDistinct t.policies
      × (override_of n.member_id t.policies ≡ kept n)
      × (t.settings ≡ m.db.tables.settings)
unfolding save_policy override_of
save_policy-policies n m d h = ground (
  arith,
  update_policy-PoliciesDistinct n m.db.tables.policies d,
  override_of-update_policy n m.db.tables.policies,
  has_policy-update_policy n.member_id n m.db.tables.policies,
)

member_policy-IsCoherent :
    (id : String) (m : Manager)
    → IsCoherent m
    → PoliciesDistinct m.db.tables.policies
    → member_policy id m ≡ override_of id m.db.tables.policies
unfolding member_policy lookup
member_policy-IsCoherent id m c d =
    ground (arith, c.overrides, lookup-by_member id [] m.db.tables.policies d refl)

normalize-commanded : (cmd : MemberUpdateCommand) → normalize_member (commanded cmd) ≡ commanded cmd
unfolding commanded
normalize-commanded cmd = normalize_member_idem (record {
  member_id = cmd.member_id;
  enabled = cmd.enabled;
  disabled = cmd.disabled;
  updated_at = 0;
  updated_by = "";
})

-- The override that a command is to leave for its member, if any.
unfoldable pub wanted : ℕ → MemberUpdateCommand → Option MemberPolicy
wanted now cmd =
    let enabled = clean_list cmd.enabled in
    let disabled = clean_list cmd.disabled in
    if is_empty enabled && is_empty disabled
    then none
    else some (record {
      member_id = cmd.member_id;
      enabled = enabled;
      disabled = disabled;
      updated_at = now;
      updated_by = cmd.actor_id;
    })

commanded-member_id : (cmd : MemberUpdateCommand) → (commanded cmd).member_id ≡ cmd.member_id
unfolding commanded normalize_member
commanded-member_id cmd = refl

kept-stamped :
    (now : ℕ) (cmd : MemberUpdateCommand)
    → kept (record (commanded cmd) { updated_at = now; updated_by = cmd.actor_id }) ≡ wanted now cmd
unfolding kept wanted commanded normalize_member is_empty_policy
kept-stamped now cmd = ground (arith, normalize-commanded cmd)

write_override-ok :
    (now : ℕ) (cmd : MemberUpdateCommand) (m : Manager)
    → PoliciesDistinct m.db.tables.policies
    → (write_override now cmd m).0 ≡ ok tt
    → let t = (write_override now cmd m).1.db.tables in
      PoliciesDistinct t.policies
      × (override_of cmd.member_id t.policies ≡ wanted now cmd)
      × (t.settings ≡ m.db.tables.settings)
unfolding write_override wanted commanded normalize_member is_empty_policy
write_override-ok now cmd m d h = elim (Bool-cases (is_empty_policy (commanded cmd))) [
  | inl e ↦ ground (
    arith,
    override_of-delete_policy cmd.member_id m.db.tables.policies,
    delete_policy-PoliciesDistinct cmd.member_id m.db.tables.policies d,
  )
  | inr e ↦
      let n = record (commanded cmd) { updated_at = now; updated_by = cmd.actor_id } in
      ground (arith, save_policy-policies n m d, kept-stamped now cmd, commanded-member_id cmd)
]

pub update_member_policy-ok :
    (gate : Gate) (now : ℕ) (cmd : MemberUpdateCommand) (m : Manager)
    → PoliciesDistinct m.db.tables.policies
    → (update_member_policy gate now cmd m).0 ≡ ok tt
    → let m' = (update_member_policy gate now cmd m).1 in
      (gate cmd.actor_id ≡ none)
      × IsCoherent m'
      × (m'.db.tables.settings ≡ m.db.tables.settings)
      × PoliciesDistinct m'.db.tables.policies
      × (member_policy cmd.member_id m' ≡ wanted now cmd)
unfolding update_member_policy
update_member_policy-ok gate now cmd m d h =
    let written = (write_override now cmd m).1 in
    ground (
      arith,
      write_override-ok now cmd m d,
      reload-tables written,
      reload-IsCoherent written,
      member_policy-IsCoherent cmd.member_id (reload written).1,
    )

wanted-blocks :
    (now : ℕ) (cmd : MemberUpdateCommand) (tool : String)
    → contains cmd.disabled tool ≡ true
    → trim_space tool ≢ ""
    → (p : MemberPolicy) × (wanted now cmd ≡ some p)
      × (contains p.disabled (trim_space tool) ≡ true)
unfolding wanted commanded normalize_member is_empty_policy contains
wanted-blocks now cmd tool c ne =
    let listed = contains-clean_list cmd.disabled tool c ne in
    (record (commanded cmd) { updated_at = now; updated_by = cmd.actor_id }, ground arith, listed)

-- In a table with one override at most for a member: once an update of an override has succeeded, a
-- tool on the commanded blocklist that is not blank is refused, trimmed, by the policy that the
-- handlers enforce for the member, whatever the settings say.
pub update_member_policy-blocks :
    (gate : Gate) (now : ℕ) (cmd : MemberUpdateCommand) (m : Manager) (tool : String)
    → PoliciesDistinct m.db.tables.policies
    → (update_member_policy gate now cmd m).0 ≡ ok tt
    → contains cmd.disabled tool ≡ true
    → trim_space tool ≢ ""
    → let e = effective_policy cmd.member_id (update_member_policy gate now cmd m).1 in
      allows e.enabled e.disabled (trim_space tool) ≡ false
unfolding effective_policy
update_member_policy-blocks gate now cmd m tool d h c ne =
    let after = (update_member_policy gate now cmd m).1 in
    let (_, _, _, _, held) = update_member_policy-ok gate now cmd m d h in
    let (p, is_p, listed) = wanted-blocks now cmd tool c ne in
    rw (held ∙ is_p) (
      effective_blocked (current after) p (trim_space tool)
        (inr ((contains_iff p.disabled (trim_space tool)).0 listed)))
