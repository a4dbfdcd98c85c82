-- ===== src/ToolPolicy/Floor.antt =====
-- The global policy as the floor of what a member may do, and where the floor gives way.
use oma_server.Common.{
  ◌≡◌, ◌≢◌, ◌↔◌, refl, Bool, true, false, ◌&&◌, ◌||◌, String, List, [], ◌∷◌, ◌++◌, some, ◌⊎◌, inl,
  inr, is_empty, contains, keep_in, Mem, arith, contains_iff, contains-append,
  contains-distinct_from, contains-keep_in, Bool-cases,
}
use oma_server.ToolPolicy.Policy.{
  Settings, MemberPolicy, authorize, resolve_effective, union_strings, intersect_strings,
}

abbrev pub allows : List String → List String → String → Bool
allows enabled disabled tool = (authorize enabled disabled tool).0

-- What the rules of the policy say of a tool.
abbrev pub Permits : List String → List String → String → Type 0
Permits enabled disabled tool = (¬ Mem tool disabled) × ((enabled ≡ []) ⊎ Mem tool enabled)

authorize-Permits :
    (enabled disabled : List String) (tool : String)
    → allows enabled disabled tool ≡ true
    → Permits enabled disabled tool
unfolding authorize
authorize-Permits [] disabled tool h =
    (λ m. let c = (contains_iff disabled tool).1 m in ground arith, inl refl)
authorize-Permits (x ∷ xs) disabled tool h = (
  λ m. let c = (contains_iff disabled tool).1 m in ground arith,
  inr ((contains_iff (x ∷ xs) tool).0 (ground arith)),
)

Permits-authorize :
    (enabled disabled : List String) (tool : String)
    → Permits enabled disabled tool
    → allows enabled disabled tool ≡ true
unfolding authorize
Permits-authorize enabled disabled tool (out, inl open_list) =
    ground (arith, λ (c : contains disabled tool ≡ true). out ((contains_iff disabled tool).0 c))
Permits-authorize enabled disabled tool (out, inr listed) =
    let l = (contains_iff enabled tool).1 listed in
    ground (arith, λ (c : contains disabled tool ≡ true). out ((contains_iff disabled tool).0 c))

-- A tool is let through just where the blocklist does not hold it, and the allowlist is empty or
-- holds it.
pub authorize_iff :
    (enabled disabled : List String) (tool : String)
    → (allows enabled disabled tool ≡ true) ↔ Permits enabled disabled tool
authorize_iff enabled disabled tool =
    (authorize-Permits enabled disabled tool, Permits-authorize enabled disabled tool)

contains-union_strings :
    (a b : List String) (v : String)
    → contains (union_strings a b) v ≡ (contains a v || contains b v)
unfolding union_strings contains
contains-union_strings a b v =
    ground (arith, contains-distinct_from [] (a ++ b) v, contains-append a b v)

contains-intersect_strings :
    (a b : List String) (v : String)
    → contains (intersect_strings a b) v ≡ (contains a v && contains b v)
unfolding intersect_strings contains
contains-intersect_strings a b v =
    ground (arith, contains-distinct_from [] (keep_in b a) v, contains-keep_in b a v)

-- The verdict under the merged policy of a member.
abbrev pub effective_allows : Settings → MemberPolicy → String → Bool
effective_allows g p tool = let e = resolve_effective g (some p) in allows e.enabled e.disabled tool

is_empty_blocks :
    (p : MemberPolicy) (tool : String)
    → contains p.disabled tool ≡ true
    → is_empty p.disabled ≡ false
unfolding contains
is_empty_blocks p tool c = ground arith

-- Whatever the override of a member says, a tool on the global blocklist, or on the member's, is
-- refused.
pub effective_blocked :
    (g : Settings) (p : MemberPolicy) (tool : String)
    → Mem tool g.disabled ⊎ Mem tool p.disabled
    → effective_allows g p tool ≡ false
unfolding resolve_effective authorize
effective_blocked g p tool (inl m) =
    let c = (contains_iff g.disabled tool).1 m in
    ground (arith, contains-union_strings g.disabled p.disabled tool)
effective_blocked g p tool (inr m) =
    let c = (contains_iff p.disabled tool).1 m in
    ground (arith, contains-union_strings g.disabled p.disabled tool, is_empty_blocks p tool c)

is_empty_of_contains : (xs : List String) (v : String) → contains xs v ≡ true → is_empty xs ≡ false
unfolding contains
is_empty_of_contains xs v c = ground arith

contains_of_is_empty :
    (xs : List String) → ((v : String) → contains xs v ≡ false) → is_empty xs ≡ true
unfolding contains
contains_of_is_empty [] h = refl
contains_of_is_empty (x ∷ xs) h = let c = h x in ground arith

-- The allowlists of a policy and of an override that both give one, and no tool is on both.
abbrev pub Disjoint : Settings → MemberPolicy → Type 0
Disjoint g p =
    (g.enabled ≢ []) × (p.enabled ≢ []) × ((v : String) → Mem v g.enabled → ¬ Mem v p.enabled)

-- The two allowlists do not shut each other out.
abbrev pub Compatible : Settings → MemberPolicy → Type 0
Compatible g p =
    (g.enabled ≡ []) ⊎ (p.enabled ≡ []) ⊎ ((v : String) × Mem v g.enabled × Mem v p.enabled)

merged :
    (g : Settings) (p : MemberPolicy) (tool : String)
    → is_empty (intersect_strings g.enabled p.enabled) ≡ is_empty g.enabled || is_empty p.enabled
    → effective_allows g p tool
      ≡ allows g.enabled g.disabled tool && allows p.enabled p.disabled tool
unfolding resolve_effective authorize contains
merged g p tool h = ground (
  arith,
  contains-union_strings g.disabled p.disabled tool,
  contains-intersect_strings g.enabled p.enabled tool,
)

-- Where the allowlists are compatible, an override only narrows: a tool is let through just where
-- both the global policy and the override let it through.
pub effective_narrows :
    (g : Settings) (p : MemberPolicy) (tool : String)
    → Compatible g p
    → effective_allows g p tool
      ≡ allows g.enabled g.disabled tool && allows p.enabled p.disabled tool
unfolding intersect_strings
effective_narrows g p tool (inl e) = merged g p tool (ground arith)
effective_narrows g p tool (inr (inl e)) = merged g p tool (ground arith)
effective_narrows g p tool (inr (inr (v, mg, mp))) =
    let cg = (contains_iff g.enabled v).1 mg in
    let cp = (contains_iff p.enabled v).1 mp in
    let c : contains (intersect_strings g.enabled p.enabled) v ≡ true =
      ground (arith, contains-intersect_strings g.enabled p.enabled v) in
    merged g p tool (
      ground (
        arith,
        is_empty_of_contains (intersect_strings g.enabled p.enabled) v c,
        is_empty_of_contains g.enabled v cg,
        is_empty_of_contains p.enabled v cp,
      ))

Disjoint-intersection :
    (g : Settings) (p : MemberPolicy)
    → Disjoint g p
    → is_empty (intersect_strings g.enabled p.enabled) ≡ true
Disjoint-intersection g p (_, _, apart) = contains_of_is_empty _ λ v.
    elim (Bool-cases (contains g.enabled v)) [
      | inl a ↦ elim (Bool-cases (contains p.enabled v)) [
        | inl b ↦ absurd (apart v ((contains_iff g.enabled v).0 a) ((contains_iff p.enabled v).0 b))
        | inr b ↦ ground (arith, contains-intersect_strings g.enabled p.enabled v)
      ]
      | inr a ↦ ground (arith, contains-intersect_strings g.enabled p.enabled v)
    ]

-- Where the global allowlist and the member's have no tool in common, the merged allowlist is
-- empty and is read as no allowlist: every tool that neither blocklist holds is let through, also
-- those that both allowlists leave out.
pub effective-Disjoint :
    (g : Settings) (p : MemberPolicy) (tool : String)
    → Disjoint g p
    → ¬ Mem tool g.disabled
    → ¬ Mem tool p.disabled
    → effective_allows g p tool ≡ true
unfolding resolve_effective authorize
effective-Disjoint g p tool d ng np =
    let i = Disjoint-intersection g p d in
    elim (Bool-cases (contains g.disabled tool)) [
      | inl a ↦ absurd (ng ((contains_iff g.disabled tool).0 a))
      | inr a ↦ elim (Bool-cases (contains p.disabled tool)) [
        | inl b ↦ absurd (np ((contains_iff p.disabled tool).0 b))
        | inr b ↦ ground (arith, d.0, d.1, contains-union_strings g.disabled p.disabled tool)
      ]
    ]
