-- ===== src/ToolPolicy/Policy.antt =====
-- domain/toolpolicy/model.go. A nil slice and an empty one are both [].
use oma_server.Common.{
  ℕ, Bool, true, false, ◌&&◌, ◌||◌, String, List, [], ◌∷◌, ◌++◌, Option, none, some, if◌then◌else◌,
  ◌==◌, trim_space, is_empty, contains, distinct_from, keep_in,
}

pub record BlockedPattern : Type 0 where
  pub type : String
  pub pattern_text : String
  pub reason : String
  pub script_type : String

pub record BlockedPath : Type 0 where
  pub type : String
  pub pattern_text : String
  pub reason : String

pub record Settings : Type 0 where
  pub mode : String
  pub enabled : List String
  pub disabled : List String
  pub blocked_patterns : List BlockedPattern
  pub blocked_paths : List BlockedPath
  pub updated_at : ℕ
  pub updated_by : String

abbrev pub default_settings : Settings
default_settings = record {
  mode = "cached";
  enabled = [];
  disabled = [];
  blocked_patterns = [];
  blocked_paths = [];
  updated_at = 0;
  updated_by = "";
}

unfoldable pub norm_mode : String → String
norm_mode m = if trim_space m == "realtime" then "realtime" else "cached"

unfoldable pub norm_match_type : String → String
norm_match_type t = if trim_space t == "regex" then "regex" else "substring"

unfoldable pub norm_script_type : String → String
norm_script_type s =
    if trim_space s == "powershell" || trim_space s == "cmd" then trim_space s else "any"

unfoldable pub clean_list : List String → List String
clean_list [] = []
clean_list (v ∷ vs) = let t = trim_space v in if t == "" then clean_list vs else t ∷ clean_list vs

unfoldable pub clean_patterns : List BlockedPattern → List BlockedPattern
clean_patterns [] = []
clean_patterns (p ∷ ps) =
    let cleaned : BlockedPattern = record {
      type = norm_match_type p.type;
      pattern_text = trim_space p.pattern_text;
      reason = trim_space p.reason;
      script_type = norm_script_type p.script_type;
    } in
    if trim_space p.pattern_text == "" then clean_patterns ps else cleaned ∷ clean_patterns ps

unfoldable pub clean_paths : List BlockedPath → List BlockedPath
clean_paths [] = []
clean_paths (p ∷ ps) =
    let cleaned : BlockedPath = record {
      type = norm_match_type p.type;
      pattern_text = trim_space p.pattern_text;
      reason = trim_space p.reason;
    } in
    if trim_space p.pattern_text == "" then clean_paths ps else cleaned ∷ clean_paths ps

-- `func (s *Settings) Normalize()`
unfoldable pub normalize : Settings → Settings
normalize s = record s {
  mode = norm_mode s.mode;
  enabled = clean_list s.enabled;
  disabled = clean_list s.disabled;
  blocked_patterns = clean_patterns s.blocked_patterns;
  blocked_paths = clean_paths s.blocked_paths;
}

pub record MemberPolicy : Type 0 where
  pub member_id : String
  pub enabled : List String
  pub disabled : List String
  pub updated_at : ℕ
  pub updated_by : String

-- `func (p *MemberPolicy) Normalize()`
unfoldable pub normalize_member : MemberPolicy → MemberPolicy
normalize_member p = record p { enabled = clean_list p.enabled; disabled = clean_list p.disabled }

-- `func (p *MemberPolicy) IsEmpty() bool`
unfoldable pub is_empty_policy : MemberPolicy → Bool
is_empty_policy p = is_empty p.enabled && is_empty p.disabled

unfoldable pub union_strings : List String → List String → List String
unfolding distinct_from
union_strings a b = if is_empty a then b else if is_empty b then a else distinct_from [] (a ++ b)

unfoldable pub intersect_strings : List String → List String → List String
unfolding distinct_from keep_in
intersect_strings a b = if is_empty a || is_empty b then [] else distinct_from [] (keep_in b a)

-- What `ResolveEffective` returns: the mode, the allowlist and the blocklist.
pub record Effective : Type 0 where
  pub mode : String
  pub enabled : List String
  pub disabled : List String

unfoldable pub merge_enabled : List String → List String → List String
unfolding intersect_strings
merge_enabled g m =
    if is_empty g && is_empty m
    then []
    else if is_empty g
    then m
    else if is_empty m
    then g
    else intersect_strings g m

unfoldable pub merge : Settings → MemberPolicy → Effective
unfolding norm_mode union_strings merge_enabled
merge g p = record {
  mode = norm_mode g.mode;
  enabled = merge_enabled g.enabled p.enabled;
  disabled = union_strings g.disabled p.disabled;
}

unfoldable pub global_only : Settings → Effective
unfolding norm_mode
global_only g = record { mode = norm_mode g.mode; enabled = g.enabled; disabled = g.disabled }

unfoldable pub resolve_effective : Settings → Option MemberPolicy → Effective
unfolding is_empty_policy merge global_only
resolve_effective g none = global_only g
resolve_effective g (some p) = if is_empty_policy p then global_only g else merge g p

abbrev pub reason_blocked : String
reason_blocked = "서버 정책에 의해 차단된 도구입니다"

abbrev pub reason_not_in_allowlist : String
reason_not_in_allowlist = "허용 목록에 없는 도구입니다"

-- The verdict on one tool, with the reason of a refusal.
unfoldable pub authorize : List String → List String → String → Bool × String
unfolding contains
authorize enabled disabled tool =
    if contains disabled tool
    then (false, reason_blocked)
    else if is_empty enabled
    then (true, "")
    else if contains enabled tool
    then (true, "")
    else (false, reason_not_in_allowlist)
