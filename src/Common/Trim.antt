-- ===== src/Common/Trim.antt =====
-- `strings.TrimSpace` is idempotent.
use Prim.Native.Char.{Char}
use Prim.Native.String.{String}
use mathlib.Core.Path.{◌≡◌, refl, ◌∙◌, ap}
use mathlib.Core.Logic.{inl, inr}
use mathlib.Core.Bool.{false}
use oma_server.Common.Tests.{Bool-cases}
use oma_server.Common.Text.{is_space, trim_left, trim_right, keep_right, trim_space}

trim_right-keep_right :
    (c : Char) (r : String) → trim_right r ≡ r → trim_right (keep_right c r) ≡ keep_right c r
unfolding trim_right
trim_right-keep_right c String.[] h = elim (Bool-cases (is_space c)) [
  | inl e ↦ rw e
  | inr e ↦ rw e (rw e)
]
trim_right-keep_right c (String.◌∷◌ d s) h = ap (keep_right c) h

trim_right_idem : (s : String) → trim_right (trim_right s) ≡ trim_right s
unfolding trim_right
trim_right_idem String.[] = refl
trim_right_idem (String.◌∷◌ c s) = trim_right-keep_right c (trim_right s) (trim_right_idem s)

trim_left-keep_right :
    (c : Char) (r : String) → is_space c ≡ false → trim_left (keep_right c r) ≡ keep_right c r
unfolding trim_left
trim_left-keep_right c String.[] e = rw e (rw e)
trim_left-keep_right c (String.◌∷◌ d s) e = rw e

trim_left-trim_right :
    (s : String) → trim_left (trim_right (trim_left s)) ≡ trim_right (trim_left s)
unfolding trim_left trim_right
trim_left-trim_right String.[] = refl
trim_left-trim_right (String.◌∷◌ c s) = elim (Bool-cases (is_space c)) [
  | inl e ↦ rw e (trim_left-trim_right s)
  | inr e ↦ rw e (trim_left-keep_right c (trim_right s) e)
]

pub trim_space_idem : (s : String) → trim_space (trim_space s) ≡ trim_space s
unfolding trim_space
trim_space_idem s = ap trim_right (trim_left-trim_right s) ∙ trim_right_idem (trim_left s)
