-- ===== src/ToolPolicy/Tests.antt =====
-- Policies with two tools, an override, and a manager that holds them.
use oma_server.Common.{
  ◌≡◌, ◌≢◌, inr, refl, true, false, String, List, [], ◌∷◌, ◌&&◌, none, some, ◌==◌, ok, arith, Mem,
  contains, contains_iff, trim_space, text_dec, Bool-cases, fails, ne_of_false, if◌then◌else◌,
  spent,
}
use oma_server.Auth.Role.{permission}
use oma_server.ToolPolicy.Policy.{
  Settings, MemberPolicy, default_settings, is_empty_policy, normalize_member, clean_list,
}
use oma_server.ToolPolicy.Floor.{
  allows, effective_allows, effective_narrows, effective-Disjoint, Disjoint, Compatible,
}
use oma_server.ToolPolicy.Manager.{
  Manager, Gate, MemberUpdateCommand, update_member_policy, effective_policy, reload,
  write_override, commanded, save_policy, has_policy,
}
use oma_server.ToolPolicy.Coherence.{update_member_policy-blocks}

abbrev floor : Settings
floor = record default_settings { enabled = "read" ∷ "write" ∷ []; disabled = "shell" ∷ [] }

abbrev override : List String → List String → MemberPolicy
override enabled disabled = record {
  member_id = "bob";
  enabled = enabled;
  disabled = disabled;
  updated_at = 0;
  updated_by = "";
}

abbrev reader : MemberPolicy
reader = override ("read" ∷ []) []

abbrev browser : MemberPolicy
browser = override ("browse" ∷ []) []

read_twice : contains ("read" ∷ "write" ∷ []) "read" ≡ true
unfolding contains text_dec Bool-cases
read_twice = refl

read_once : contains ("read" ∷ []) "read" ≡ true
unfolding contains text_dec Bool-cases
read_once = refl

reader-Compatible : Compatible floor reader
reader-Compatible = inr (
    inr (
      "read",
      (contains_iff ("read" ∷ "write" ∷ []) "read").0 read_twice,
      (contains_iff ("read" ∷ []) "read").0 read_once,
    ))

effective_narrows_example :
    effective_allows floor reader "write"
    ≡ allows ("read" ∷ "write" ∷ []) ("shell" ∷ []) "write" && allows ("read" ∷ []) [] "write"
effective_narrows_example = effective_narrows floor reader "write" reader-Compatible

delete_unblocked : contains ("shell" ∷ []) "delete" ≡ false
unfolding contains text_dec Bool-cases
delete_unblocked = refl

browse_apart : contains ("read" ∷ "write" ∷ []) "browse" ≡ false
unfolding contains text_dec Bool-cases
browse_apart = refl

browse_only : (v : String) → contains ("browse" ∷ []) v ≡ true → v ≡ "browse"
unfolding contains
browse_only v h = ground arith

not_browse : (v : String) → Mem v ("read" ∷ "write" ∷ []) → ¬ Mem v ("browse" ∷ [])
not_browse v m n =
    let e = browse_only v ((contains_iff ("browse" ∷ []) v).1 n) in
    let c = (contains_iff ("read" ∷ "write" ∷ []) v).1 m in ground (arith, browse_apart)

floor-Disjoint : Disjoint floor browser
floor-Disjoint = (λ e. cc, λ e. cc, not_browse)

delete_free : ¬ Mem {A = String} "delete" ("shell" ∷ [])
delete_free m =
    let c = (contains_iff ("shell" ∷ []) "delete").1 m in ground (arith, delete_unblocked)

nothing_in : contains [] "delete" ≡ false
unfolding contains
nothing_in = refl

nothing_blocked : ¬ Mem {A = String} "delete" []
nothing_blocked m = let c = (contains_iff [] "delete").1 m in ground (arith, nothing_in)

effective-Disjoint_example : effective_allows floor browser "delete" ≡ true
effective-Disjoint_example =
    effective-Disjoint floor browser "delete" floor-Disjoint delete_free nothing_blocked

abbrev manager : Manager
manager = record {
  db = record { tables = record { settings = some floor; policies = [] }; faults = [] };
  cur = none;
  members = none;
}

-- Only `root` is an administrator.
abbrev gate : Gate
gate id = if id == "root" then none else some permission

abbrev block : MemberUpdateCommand
block = record { member_id = "bob"; enabled = []; disabled = " read " ∷ []; actor_id = "root" }

blocked : (update_member_policy gate 9 block manager).0 ≡ ok tt
unfolding update_member_policy text_dec Bool-cases write_override is_empty_policy commanded
    normalize_member clean_list trim_space save_policy fails has_policy spent reload
blocked = refl

read_commanded : contains (" read " ∷ []) " read " ≡ true
unfolding contains text_dec Bool-cases
read_commanded = refl

read_trimmed : trim_space " read " ≡ "read"
unfolding trim_space
read_trimmed = refl

read_named : trim_space " read " ≢ ""
read_named e = ground (arith, read_trimmed, ne_of_false "read" "" refl)

update_member_policy-blocks_example :
    let e = effective_policy "bob" (update_member_policy gate 9 block manager).1 in
    allows e.enabled e.disabled (trim_space " read ") ≡ false
update_member_policy-blocks_example =
    update_member_policy-blocks gate 9 block manager " read " tt blocked read_commanded read_named
