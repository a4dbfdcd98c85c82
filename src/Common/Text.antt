-- ===== src/Common/Text.antt =====
-- Go strings: equality as a decision, the order of `<=`, and `strings.TrimSpace`. A string is
-- taken to be valid UTF-8.
use Prim.Native.Nat.{Ordering}
use Prim.Native.Char.{Char, code}
use Prim.Native.String.{String, compare, ◌++◌}
use mathlib.Core.Path.{◌≡◌, refl}
use mathlib.Core.Logic.{◌≢◌, inl, inr}
use mathlib.Core.Bool.{Bool, true, false, ◌&&◌, ◌||◌}
use native.Mathlib.Omega.{arith}
use text.Mathlib.Text.{◌==◌ as str_eq}
use text.Mathlib.TextEquality.{eq_iff}
use oma_server.Common.Tests.{Bool-cases, leb, eqb, if◌then◌else◌}

pub ne_of_false : (s t : String) → str_eq s t ≡ false → s ≢ t
ne_of_false s t h e = ground (arith, (eq_iff s t).1 e)

unfoldable pub text_dec : (s t : String) → Dec (s ≡ t)
text_dec s t = elim (Bool-cases (str_eq s t)) [
  | inl same ↦ yes ((eq_iff s t).0 same)
  | inr other ↦ no (ne_of_false s t other)
]

-- `s == t`
infix 50 ◌==◌
abbrev pub ◌==◌ : String → String → Bool
s == t = elim (text_dec s t) [ yes _ ↦ true | no _ ↦ false ]

-- `unicode.IsSpace`
unfoldable pub is_space : Char → Bool
is_space c =
    let n = code c in
    (leb 9 n && leb n 13)
    || eqb n 0x20
    || eqb n 0x85
    || eqb n 0xa0
    || eqb n 0x1680
    || (leb 0x2000 n && leb n 0x200a)
    || eqb n 0x2028
    || eqb n 0x2029
    || eqb n 0x202f
    || eqb n 0x205f
    || eqb n 0x3000

unfoldable pub trim_left : String → String
trim_left String.[] = String.[]
trim_left (String.◌∷◌ c s) = if is_space c then trim_left s else String.◌∷◌ c s

abbrev pub keep_right : Char → String → String
keep_right c String.[] = if is_space c then String.[] else String.◌∷◌ c String.[]
keep_right c (String.◌∷◌ d s) = String.◌∷◌ c (String.◌∷◌ d s)

unfoldable pub trim_right : String → String
trim_right String.[] = String.[]
trim_right (String.◌∷◌ c s) = keep_right c (trim_right s)

unfoldable pub trim_space : String → String
unfolding trim_left trim_right is_space
trim_space s = trim_right (trim_left s)

-- `a <= b`, by code points, which is the order of the UTF-8 bytes.
abbrev pub text_le : String → String → Bool
text_le a b = elim (compare a b) [ Ordering.gt ↦ false | _ ↦ true ]

trim_demo : trim_space "  a b \n" ≡ "a b"
unfolding trim_space
trim_demo = refl

-- `s + t`
abbrev pub str_append : String → String → String
str_append s t = s ++ t
