-- ===== src/ToolPolicy/Cleaning.antt =====
-- `Normalize` is idempotent, so that what is read back and normalised again is what was saved.
use oma_server.Common.{
  ◌≡◌, refl, String, List, [], ◌∷◌, true, trim_space, trim_space_idem, arith, contains, ◌≢◌,
  ne_of_false,
}
use oma_server.ToolPolicy.Policy.{
  Settings, MemberPolicy, BlockedPattern, BlockedPath, norm_mode, norm_match_type, norm_script_type,
  clean_list, clean_patterns, clean_paths, normalize, normalize_member,
}

-- The literals, trimmed and told apart.
trim_realtime : trim_space "realtime" ≡ "realtime"
unfolding trim_space
trim_realtime = refl

trim_cached : trim_space "cached" ≡ "cached"
unfolding trim_space
trim_cached = refl

trim_regex : trim_space "regex" ≡ "regex"
unfolding trim_space
trim_regex = refl

trim_substring : trim_space "substring" ≡ "substring"
unfolding trim_space
trim_substring = refl

trim_any : trim_space "any" ≡ "any"
unfolding trim_space
trim_any = refl

pub norm_mode_idem : (m : String) → norm_mode (norm_mode m) ≡ norm_mode m
unfolding norm_mode
norm_mode_idem m = ground (arith, trim_realtime, trim_cached, ne_of_false "cached" "realtime" refl)

norm_match_type_idem : (t : String) → norm_match_type (norm_match_type t) ≡ norm_match_type t
unfolding norm_match_type
norm_match_type_idem t =
    ground (arith, trim_regex, trim_substring, ne_of_false "substring" "regex" refl)

norm_script_type_idem : (s : String) → norm_script_type (norm_script_type s) ≡ norm_script_type s
unfolding norm_script_type
norm_script_type_idem s = ground (
  arith,
  trim_space_idem s,
  trim_any,
  ne_of_false "any" "powershell" refl,
  ne_of_false "any" "cmd" refl,
)

clean_list_idem : (vs : List String) → clean_list (clean_list vs) ≡ clean_list vs
unfolding clean_list
clean_list_idem [] = refl
clean_list_idem (v ∷ vs) = ground (arith, clean_list_idem vs, trim_space_idem v)

clean_patterns_idem :
    (ps : List BlockedPattern) → clean_patterns (clean_patterns ps) ≡ clean_patterns ps
unfolding clean_patterns
clean_patterns_idem [] = refl
clean_patterns_idem (p ∷ ps) = ground (
  arith,
  clean_patterns_idem ps,
  trim_space_idem p.pattern_text,
  trim_space_idem p.reason,
  norm_match_type_idem p.type,
  norm_script_type_idem p.script_type,
)

clean_paths_idem : (ps : List BlockedPath) → clean_paths (clean_paths ps) ≡ clean_paths ps
unfolding clean_paths
clean_paths_idem [] = refl
clean_paths_idem (p ∷ ps) = ground (
  arith,
  clean_paths_idem ps,
  trim_space_idem p.pattern_text,
  trim_space_idem p.reason,
  norm_match_type_idem p.type,
)

-- Normalising settings a second time changes nothing.
pub normalize_idem : (s : Settings) → normalize (normalize s) ≡ normalize s
unfolding normalize
normalize_idem s = ground (
  arith,
  norm_mode_idem s.mode,
  clean_list_idem s.enabled,
  clean_list_idem s.disabled,
  clean_patterns_idem s.blocked_patterns,
  clean_paths_idem s.blocked_paths,
)

pub normalize_member_idem :
    (p : MemberPolicy) → normalize_member (normalize_member p) ≡ normalize_member p
unfolding normalize_member
normalize_member_idem p = ground (arith, clean_list_idem p.enabled, clean_list_idem p.disabled)

-- An item of the list stands in the cleaned list, trimmed, unless nothing is left of it.
pub contains-clean_list :
    (vs : List String) (v : String)
    → contains vs v ≡ true
    → trim_space v ≢ ""
    → contains (clean_list vs) (trim_space v) ≡ true
unfolding contains clean_list
contains-clean_list [] v h ne = cc
contains-clean_list (x ∷ vs) v h ne = ground (arith, contains-clean_list vs v)
