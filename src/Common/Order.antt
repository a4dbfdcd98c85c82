-- ===== src/Common/Order.antt =====
-- The order of Go strings is total and antisymmetric.
use Prim.Native.Nat.{ℕ, Ordering, compare as compare_ℕ}
use Prim.Native.Char.{code}
use Prim.Native.String.{String, compare, then}
use Prim.Native.String.compare
use mathlib.Core.Path.{◌≡◌, refl, sym, ◌∙◌, ap}
use mathlib.Core.Bool.{true, false}
use native.Mathlib.Omega.{arith}
use text.Mathlib.TextEquality.{path_by_compare}
use oma_server.Common.Text.{text_le}

abbrev flip : Ordering → Ordering
flip Ordering.lt = Ordering.gt
flip Ordering.eq = Ordering.eq
flip Ordering.gt = Ordering.lt

flip-compare_ℕ : (m n : ℕ) → compare_ℕ m n ≡ flip (compare_ℕ n m)
flip-compare_ℕ m n = ground arith

flip-then : (o p : Ordering) → flip (then o p) ≡ then (flip o) (flip p)
flip-then Ordering.lt p = refl
flip-then Ordering.eq p = refl
flip-then Ordering.gt p = refl

flip-compare : (s t : String) → compare s t ≡ flip (compare t s)
flip-compare String.[] String.[] = compare.nil-nil ∙ ap flip (sym compare.nil-nil)
flip-compare String.[] (String.◌∷◌ d t) =
    compare.nil-cons d t ∙ ap flip (sym (compare.cons-nil d t))
flip-compare (String.◌∷◌ c s) String.[] =
    compare.cons-nil c s ∙ ap flip (sym (compare.nil-cons c s))
flip-compare (String.◌∷◌ c s) (String.◌∷◌ d t) =
    rw (compare.cons-cons c d s t, compare.cons-cons d c t s, flip-then)
      (rw (flip-compare_ℕ (code c) (code d), flip-compare s t) refl)

pub text_le_total : (s t : String) → text_le s t ≡ false → text_le t s ≡ true
text_le_total s t h = ground (arith, flip-compare s t)

pub text_le_antisym : (s t : String) → text_le s t ≡ true → text_le t s ≡ true → s ≡ t
text_le_antisym s t h k = path_by_compare s t (ground (arith, flip-compare s t))
