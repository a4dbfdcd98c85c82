-- ===== src/ToolPolicy/Overrides.antt =====
-- The rows of `member_tool_policy` and the map that the cache makes of them.
use oma_server.Common.{
  ◌≡◌, refl, true, false, String, List, [], ◌∷◌, Option, none, some, if◌then◌else◌, ◌==◌, Map,
  lookup, insert, lookup-insert, arith, inl, inr, Bool-cases, subst, text_dec,
}
use oma_server.ToolPolicy.Policy.{MemberPolicy, normalize_member, is_empty_policy}
use oma_server.ToolPolicy.Manager.{by_member, has_policy, update_policy, delete_policy}

-- One override at most for a member, as the primary key of the table has it.
abbrev pub PoliciesDistinct : List MemberPolicy → Type 0
PoliciesDistinct [] = Unit {0}
PoliciesDistinct (p ∷ ps) = (has_policy p.member_id ps ≡ false) × PoliciesDistinct ps

lookup-by_member_absent :
    (id : String) (acc : Map MemberPolicy) (ps : List MemberPolicy)
    → has_policy id ps ≡ false
    → lookup id (by_member acc ps) ≡ lookup id acc
unfolding by_member has_policy
lookup-by_member_absent id acc [] h = refl
lookup-by_member_absent id acc (p ∷ ps) h =
    elim (Bool-cases (is_empty_policy (normalize_member p))) [
      | inl e ↦ rw e (lookup-by_member_absent id acc ps (ground arith))
      | inr e ↦
          let acc' = insert p.member_id (normalize_member p) acc in
          rw e (
            ground (
              arith,
              lookup-by_member_absent id acc' ps (ground arith),
              lookup-insert p.member_id id (normalize_member p) acc,
            ))
    ]

-- What the map of the cache says of a member.
unfoldable pub kept : MemberPolicy → Option MemberPolicy
kept p = if is_empty_policy (normalize_member p) then none else some (normalize_member p)

unfoldable pub override_of : String → List MemberPolicy → Option MemberPolicy
override_of id [] = none
override_of id (p ∷ ps) = if p.member_id == id then kept p else override_of id ps

pub lookup-by_member :
    (id : String) (acc : Map MemberPolicy) (ps : List MemberPolicy)
    → PoliciesDistinct ps
    → lookup id acc ≡ none
    → lookup id (by_member acc ps) ≡ override_of id ps
unfolding by_member override_of kept
lookup-by_member id acc [] d h = h
lookup-by_member id acc (p ∷ ps) d h = elim (Bool-cases (is_empty_policy (normalize_member p))) [
  | inl e ↦ elim (text_dec p.member_id id) [
    | yes same ↦ rw e (
        ground (
          arith,
          lookup-by_member_absent id acc ps (subst (λ x. has_policy x ps ≡ false) same d.0),
        ))
    | no other ↦ rw e (ground (arith, lookup-by_member id acc ps d.1 h))
  ]
  | inr e ↦
      let acc' = insert p.member_id (normalize_member p) acc in
      elim (text_dec p.member_id id) [
        | yes same ↦ rw e (
            ground (
              arith,
              lookup-by_member_absent id acc' ps (subst (λ x. has_policy x ps ≡ false) same d.0),
              lookup-insert p.member_id id (normalize_member p) acc,
            ))
        | no other ↦ rw e (
            ground (
              arith,
              lookup-by_member id acc' ps d.1,
              lookup-insert p.member_id id (normalize_member p) acc,
            ))
      ]
]

pub override_of-update_policy :
    (n : MemberPolicy) (ps : List MemberPolicy)
    → has_policy n.member_id ps ≡ true
    → override_of n.member_id (update_policy n ps) ≡ kept n
unfolding override_of update_policy has_policy
override_of-update_policy n [] h = cc
override_of-update_policy n (p ∷ ps) h = elim (text_dec p.member_id n.member_id) [
  | yes same ↦
      let whole : kept (record n { member_id = p.member_id }) ≡ kept n =
        λ i. kept (record n { member_id = same i }) in
      ground arith
  | no other ↦ ground (arith, override_of-update_policy n ps)
]

pub override_of-delete_policy :
    (id : String) (ps : List MemberPolicy) → override_of id (delete_policy id ps) ≡ none
unfolding override_of delete_policy
override_of-delete_policy id [] = refl
override_of-delete_policy id (p ∷ ps) = ground (arith, override_of-delete_policy id ps)

pub has_policy-update_policy :
    (id : String) (n : MemberPolicy) (ps : List MemberPolicy)
    → has_policy id (update_policy n ps) ≡ has_policy id ps
unfolding has_policy update_policy
has_policy-update_policy id n [] = refl
has_policy-update_policy id n (p ∷ ps) = ground (arith, has_policy-update_policy id n ps)

has_policy-delete_policy :
    (id x : String) (ps : List MemberPolicy)
    → has_policy x ps ≡ false
    → has_policy x (delete_policy id ps) ≡ false
unfolding has_policy delete_policy
has_policy-delete_policy id x [] h = refl
has_policy-delete_policy id x (p ∷ ps) h = ground (arith, has_policy-delete_policy id x ps)

pub update_policy-PoliciesDistinct :
    (n : MemberPolicy) (ps : List MemberPolicy)
    → PoliciesDistinct ps
    → PoliciesDistinct (update_policy n ps)
unfolding update_policy
update_policy-PoliciesDistinct n [] d = tt
update_policy-PoliciesDistinct n (p ∷ ps) d = (
  ground (arith, has_policy-update_policy p.member_id n ps),
  update_policy-PoliciesDistinct n ps d.1,
)

pub delete_policy-PoliciesDistinct :
    (id : String) (ps : List MemberPolicy)
    → PoliciesDistinct ps
    → PoliciesDistinct (delete_policy id ps)
unfolding delete_policy
delete_policy-PoliciesDistinct id [] d = tt
delete_policy-PoliciesDistinct id (p ∷ ps) d = ground (
  arith,
  delete_policy-PoliciesDistinct id ps d.1,
  has_policy-delete_policy id p.member_id ps d.0,
)
