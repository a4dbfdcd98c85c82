-- ===== src/AgentRegistry/Prefilter.antt =====
-- The statement of the list loses no agent that the filter asks for, unless the tag asked for has
-- characters that the JSON text writes otherwise.
use Prim.Native.String.{String, ◌++◌}
use Prim.Native.String as Text
use text.Mathlib.TextLemmas.{append_assoc}
use oma_server.Common.{
  ◌≡◌, refl, ap, sym, ◌∙◌, Bool, true, not, ◌&&◌, ◌||◌, List, [], ◌∷◌, ◌==◌, contains, has_any,
  arith, text_dec, inl, inr, Bool-cases,
}
use oma_server.AgentRegistry.Model.{Agent, Filter, matches}
use oma_server.AgentRegistry.Column.{
  is_escaped, escaped, quoted, json_rest, marshal_string_list, json_elem_like,
}
use oma_server.AgentRegistry.Tables.{Like, like_any, coarse}

-- What is documented of LIKE: a text that contains the pattern is found.
abbrev pub FindsParts : Like → Type 0
FindsParts like = (s p t : String) → like (s ++ p ++ t) p ≡ true

unfoldable pub is_plain : String → Bool
is_plain Text.[] = true
is_plain (Text.◌∷◌ c s) = not (is_escaped c) && is_plain s

-- No pattern is made of the text, or JSON writes it as it is.
unfoldable pub is_safe : String → Bool
unfolding is_plain
is_safe v = v == "" || has_any v "%_\"\\" || is_plain v

escaped_plain : (v : String) → is_plain v ≡ true → escaped v ≡ v
unfolding is_plain escaped
escaped_plain Text.[] h = refl
escaped_plain (Text.◌∷◌ c s) h =
    let tail = escaped_plain s (ground arith) in
    elim (Bool-cases (is_escaped c)) [
      | inl e ↦ absurd (ground arith)
      | inr e ↦ rw e (ap (Text.◌∷◌ c) tail)
    ]

-- A text in which a part stands.
Holds : String → String → Type 0
Holds text p = (s : String) × (t : String) × (text ≡ s ++ p ++ t)

Holds-append : (q text p : String) → Holds text p → Holds (q ++ text) p
unfolding Holds
Holds-append q text p (s, t, e) = (q ++ s, t, ap (λ x. q ++ x) e ∙ sym (append_assoc q s (p ++ t)))

Holds-json_rest :
    (v : String) (ts : List String)
    → is_plain v ≡ true
    → contains ts v ≡ true
    → Holds (json_rest ts) (quoted v)
unfolding Holds contains json_rest
Holds-json_rest v [] h k = absurd (ground arith)
Holds-json_rest v (x ∷ ts) h k = elim (text_dec x v) [
  | yes e ↦ (
    ",",
    json_rest ts,
    ap (λ y. "," ++ quoted y ++ json_rest ts) (ap escaped e ∙ escaped_plain v h),
  )
  | no ne ↦ Holds-append "," (quoted (escaped x) ++ json_rest ts) (quoted v) (
      Holds-append (quoted (escaped x)) (json_rest ts) (quoted v)
        (Holds-json_rest v ts h (ground arith)))
]

Holds-marshal_string_list :
    (v : String) (ts : List String)
    → is_plain v ≡ true
    → contains ts v ≡ true
    → Holds (marshal_string_list ts) (quoted v)
unfolding Holds contains marshal_string_list
Holds-marshal_string_list v [] h k = absurd (ground arith)
Holds-marshal_string_list v (x ∷ ts) h k = elim (text_dec x v) [
  | yes e ↦ (
    "[",
    json_rest ts,
    ap (λ y. "[" ++ quoted y ++ json_rest ts) (ap escaped e ∙ escaped_plain v h),
  )
  | no ne ↦ Holds-append "[" (quoted (escaped x) ++ json_rest ts) (quoted v) (
      Holds-append (quoted (escaped x)) (json_rest ts) (quoted v)
        (Holds-json_rest v ts h (ground arith)))
]

like_of_Holds :
    (like : Like) (text p : String) → FindsParts like → Holds text p → like text p ≡ true
unfolding Holds
like_of_Holds like text p finds (s, t, e) = ap (λ x. like x p) e ∙ finds s p t

-- The pattern for a tag finds the lists that have it.
like_any-contains :
    (like : Like) (v : String) (ts : List String)
    → FindsParts like
    → is_safe v ≡ true
    → (v == "" || contains ts v) ≡ true
    → like_any like (json_elem_like v) ts ≡ true
unfolding like_any json_elem_like is_safe
like_any-contains like v ts finds h k = elim (Bool-cases (v == "")) [
  | inl e ↦ rw e refl
  | inr e ↦ elim (Bool-cases (has_any v "%_\"\\")) [
    | inl g ↦ rw (e, g) refl
    | inr g ↦
        rw (e, g)
          (like_of_Holds like (marshal_string_list ts) (quoted v) finds
            (Holds-marshal_string_list v ts (ground arith) (ground arith)))
  ]
]

pub coarse-matches :
    (lower : String → String) (like : Like) (f : Filter) (a : Agent)
    → FindsParts like
    → is_safe f.capability ≡ true
    → is_safe f.tag ≡ true
    → matches lower f a ≡ true
    → coarse like f a ≡ true
unfolding matches coarse
coarse-matches lower like f a finds c t m = ground (
  arith,
  like_any-contains like f.capability a.capabilities finds c,
  like_any-contains like f.tag a.tags finds t,
)
