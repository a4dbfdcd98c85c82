-- ===== src/Common/Lists.antt =====
-- Lists, and the sets of strings that the code keeps as `map[string]struct{}`.
use Prim.Native.Nat.{ℕ, suc}
use Prim.Native.String.{String}
use mathlib.Core.Path.{◌≡◌, refl, sym, subst}
use mathlib.Core.Logic.{◌↔◌}
use mathlib.Core.Logic.Or
use mathlib.Core.Bool.{Bool, true, false, not, ◌&&◌, ◌||◌, Bool-set}
use mathlib.Core.List.{List, [], ◌∷◌, ◌++◌, Mem, mem-cons, not-mem-nil, mem-cons_self}
use mathlib.Core.List.{mem-cons_of_mem}
use native.Mathlib.Omega.{arith}
use oma_server.Common.Tests.{if◌then◌else◌}
use oma_server.Common.Text.{◌==◌, text_dec}

module _ {ℓ} {A : Type ℓ} where
  abbrev pub length : List A → ℕ
  length [] = 0
  length (x ∷ xs) = suc (length xs)

  abbrev pub is_empty : List A → Bool
  is_empty [] = true
  is_empty (x ∷ xs) = false

-- `for _, s := range list { if s == v { return true } }; return false`
unfoldable pub contains : List String → String → Bool
contains [] v = false
contains (x ∷ xs) v = x == v || contains xs v

-- The items of the list that are not in `seen`, each at its first place.
unfoldable pub distinct_from : List String → List String → List String
distinct_from seen [] = []
distinct_from seen (x ∷ xs) =
    let skip = distinct_from seen xs in
    let keep = x ∷ distinct_from (x ∷ seen) xs in if contains seen x then skip else keep

-- The items that are in `set` too, in their order.
unfoldable pub keep_in : List String → List String → List String
keep_in set [] = []
keep_in set (x ∷ xs) = if contains set x then x ∷ keep_in set xs else keep_in set xs

pub contains-append :
    (xs ys : List String) (v : String) → contains (xs ++ ys) v ≡ (contains xs v || contains ys v)
unfolding contains
contains-append [] ys v = refl
contains-append (x ∷ xs) ys v = ground (arith, contains-append xs ys v)

pub contains-distinct_from :
    (seen xs : List String) (v : String)
    → contains (distinct_from seen xs) v ≡ (contains xs v && not (contains seen v))
unfolding contains distinct_from
contains-distinct_from seen [] v = refl
contains-distinct_from seen (x ∷ xs) v =
    ground (arith, contains-distinct_from seen xs v, contains-distinct_from (x ∷ seen) xs v)

pub contains-keep_in :
    (set xs : List String) (v : String)
    → contains (keep_in set xs) v ≡ (contains xs v && contains set v)
unfolding contains keep_in
contains-keep_in set [] v = refl
contains-keep_in set (x ∷ xs) v = ground (arith, contains-keep_in set xs v)

-- No item stands twice.
abbrev pub IsDistinct : List String → Type 0
IsDistinct [] = Unit {0}
IsDistinct (x ∷ xs) = (contains xs x ≡ false) × IsDistinct xs

pub distinct_from-IsDistinct : (seen xs : List String) → IsDistinct (distinct_from seen xs)
unfolding distinct_from contains
distinct_from-IsDistinct seen [] = tt
distinct_from-IsDistinct seen (x ∷ xs) = ground (
  arith,
  distinct_from-IsDistinct seen xs,
  distinct_from-IsDistinct (x ∷ seen) xs,
  contains-distinct_from (x ∷ seen) xs x,
)

pub keep_in-IsDistinct : (set xs : List String) → IsDistinct xs → IsDistinct (keep_in set xs)
unfolding keep_in
keep_in-IsDistinct set [] d = tt
keep_in-IsDistinct set (x ∷ xs) d =
    ground (arith, keep_in-IsDistinct set xs d.1, contains-keep_in set xs x)

-- The test says just what membership says.
pub contains_iff : (xs : List String) (v : String) → (contains xs v ≡ true) ↔ Mem v xs
unfolding contains
contains_iff [] v = (λ h. absurd (ground arith), λ m. absurd (not-mem-nil m))
contains_iff (x ∷ xs) v = (
  λ h. elim (text_dec x v) [
    | yes e ↦ subst (λ y. Mem v (y ∷ xs)) (sym e) mem-cons_self
    | no ne ↦ mem-cons_of_mem x ((contains_iff xs v).0 (ground arith))
  ],
  λ m.
      Or.elim (Bool-set _ _) (mem-cons.0 m) (λ e. ground arith)
        (λ r. let rest = (contains_iff xs v).1 r in ground arith),
)

pub length-snoc {ℓ} : {A : Type ℓ} (xs : List A) (x : A) → length (xs ++ x ∷ []) ≡ suc (length xs)
length-snoc [] x = refl
length-snoc (y ∷ ys) x = ground (arith, length-snoc ys x)
