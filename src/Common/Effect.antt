-- ===== src/Common/Effect.antt =====
-- A call of a use case: it returns a value or an error, and the state it leaves. The state is the
-- tables of a repository with a schedule of driver failures: each statement takes the next entry
-- of the schedule, and fails without effect where that is `true`.
use mathlib.Core.Path.{◌≡◌, refl}
use mathlib.Core.Logic.{◌⊎◌, inl, inr}
use mathlib.Core.Bool.{Bool, true, false}
use mathlib.Core.List.{List, [], ◌∷◌}
use oma_server.Common.Tests.{if◌then◌else◌}

pub data Result (E A : Type 0) : Type 0 where
  ok : A → Result E A
  err : E → Result E A

abbrev pub Action : Type 0 → Type 0 → Type 0 → Type 0
Action S E A = S → Result E A × S

infixl 5 ◌>>=◌ ◌>>◌
abbrev pub ◌>>=◌ : {S E A B : Type 0} → Action S E A → (A → Action S E B) → Action S E B
◌>>=◌ m f s = let (r, s') = m s in elim r [ ok a ↦ f a s' | err e ↦ (err e, s') ]

abbrev pub ◌>>◌ : {S E A B : Type 0} → Action S E A → Action S E B → Action S E B
m >> k = m >>= λ _. k

module _ {S E : Type 0} where
  abbrev pub pure : {A : Type 0} → A → Action S E A
  pure a s = (ok a, s)

  -- `return err`
  abbrev pub fail : {A : Type 0} → E → Action S E A
  fail e s = (err e, s)

  -- `if !test { return err }`
  abbrev pub require : Bool → E → Action S E (Unit {0})
  require test e s = (if test then ok tt else err e, s)

  -- `if test { return err }`
  abbrev pub refuse : Bool → E → Action S E (Unit {0})
  refuse test e s = (if test then err e else ok tt, s)

  abbrev pub lift : {A : Type 0} → Result E A → Action S E A
  lift r s = (r, s)

  -- The result as a value, for code that looks at the error itself.
  abbrev pub attempt : {A : Type 0} → Action S E A → Action S E (Result E A)
  attempt m s = let (r, s') = m s in (ok r, s')

pub record World (D : Type 0) : Type 0 where
  pub tables : D
  pub faults : List Bool

abbrev first : List Bool → Bool
first [] = false
first (b ∷ _) = b

abbrev rest : List Bool → List Bool
rest [] = []
rest (_ ∷ bs) = bs

unfoldable pub spent : List Bool → List Bool
spent bs = rest bs

module _ {D : Type 0} where
  unfoldable pub fails : World D → Bool
  fails w = first w.faults

  abbrev pub spend : World D → World D
  spend w = record w { faults = spent w.faults }

  module _ {E : Type 0} (down : E) where
    -- One statement.
    abbrev pub statement : {A : Type 0} → (D → Result E A × D) → Action (World D) E A
    statement f w = elim (fails w) [
      | true ↦ (err down, spend w)
      | false ↦ let (r, d) = f w.tables in (r, record { tables = d; faults = spent w.faults })
    ]

    abbrev pub query : {A : Type 0} → (D → Result E A) → Action (World D) E A
    query f = statement (λ d. (f d, d))

    abbrev pub exec : (D → D) → Action (World D) E (Unit {0})
    exec f = statement (λ d. (ok tt, f d))

pub Result-cases :
    {E A : Type 0} (r : Result E A) → ((a : A) × (r ≡ ok a)) ⊎ ((e : E) × (r ≡ err e))
Result-cases (ok a) = inl (a, refl)
Result-cases (err e) = inr (e, refl)
