-- ===== src/Common/DecimalValue.antt =====
-- Reading the decimal digits of a number back gives the number.
use Prim.Native.Nat.{ℕ, zero, suc, ◌/◌, ◌%◌, ◌≤◌, ◌<◌, ◌+◌, ◌-◌, ◌*◌}
use Prim.Native.Char.{code}
use Prim.Native.String.{String, ◌++◌}
use Prim.Native.String as Text
use mathlib.Core.Path.{◌≡◌, refl}
use mathlib.Core.Bool.{Bool, true, false}
use native.Mathlib.Omega.{arith}
use text.Mathlib.TextLemmas.{nil-append, cons-append}
use oma_server.Common.Tests.{if◌then◌else◌, ltb, eqb}
use oma_server.Common.Decimal.{digit, decimal_from, decimal, padded}

-- The characters as digits, after the number that stands before them. What comes before "0" counts
-- as 0.
unfoldable pub value : ℕ → String → ℕ
value a Text.[] = a
value a (Text.◌∷◌ c s) = value (10 * a + (code c - 48)) s

pub value-append : (a : ℕ) (s t : String) → value a (s ++ t) ≡ value (value a s) t
unfolding value
value-append a Text.[] t = rw (nil-append t) refl
value-append a (Text.◌∷◌ c s) t = rw (cons-append c s t) (value-append (10 * a + (code c - 48)) s t)

value_if :
    (a : ℕ) (b : Bool) (s t : String) (k : ℕ)
    → (b ≡ true → value a s ≡ k)
    → (b ≡ false → value a t ≡ k)
    → value a (if b then s else t) ≡ k
value_if a true s t k p q = p refl
value_if a false s t k p q = q refl

value-digit : (a n : ℕ) → n < 10 → value a (digit n) ≡ 10 * a + n
unfolding digit value
value-digit a n l =
    value_if a (eqb n 0) _ _ _ (λ h. ground arith)
      λ h0.
        value_if a (eqb n 1) _ _ _ (λ h. ground arith)
          λ h1.
            value_if a (eqb n 2) _ _ _ (λ h. ground arith)
              λ h2.
                value_if a (eqb n 3) _ _ _ (λ h. ground arith)
                  λ h3.
                    value_if a (eqb n 4) _ _ _ (λ h. ground arith)
                      λ h4.
                        value_if a (eqb n 5) _ _ _ (λ h. ground arith)
                          λ h5.
                            value_if a (eqb n 6) _ _ _ (λ h. ground arith)
                              λ h6.
                                value_if a (eqb n 7) _ _ _ (λ h. ground arith)
                                  λ h7.
                                    value_if a (eqb n 8) _ _ _ (λ h. ground arith)
                                      λ h8. ground arith

value-decimal_from : (f n : ℕ) → n ≤ f → value 0 (decimal_from f n) ≡ n
unfolding decimal_from
value-decimal_from zero n h = ground (arith, value-digit 0 n)
value-decimal_from (suc f) n h =
    value_if 0 (ltb n 10) _ _ _ (λ l. ground (arith, value-digit 0 n))
      λ l. ground (
        arith,
        value-append 0 (decimal_from f (n / 10)) (digit (n % 10)),
        value-decimal_from f (n / 10),
        value-digit (n / 10) (n % 10),
      )

-- The fuel of `decimal` is enough: its digits are those of the number.
pub value-decimal : (n : ℕ) → value 0 (decimal n) ≡ n
unfolding decimal
value-decimal n = value-decimal_from n n (omega arith)

value-decimal_from_one : (f a n : ℕ) → n < 10 → value a (decimal_from f n) ≡ 10 * a + n
unfolding decimal_from
value-decimal_from_one zero a n h = value-digit a n h
value-decimal_from_one (suc f) a n h = ground (arith, value-digit a n)

value-decimal_from_two :
    (f a n : ℕ) → 10 ≤ n → n < 100 → value a (decimal_from (suc f) n) ≡ 100 * a + n
unfolding decimal_from
value-decimal_from_two f a n l h = ground (
  arith,
  value-append a (decimal_from f (n / 10)) (digit (n % 10)),
  value-decimal_from_one f a (n / 10),
  value-digit (10 * a + n / 10) (n % 10),
)

pub value-padded : (a n : ℕ) → n < 100 → value a (padded n) ≡ 100 * a + n
unfolding padded decimal value
value-padded a zero h =
    ground (arith, value-append a "0" (decimal_from 0 0), value-digit (10 * a) 0)
value-padded a (suc n) h =
    value_if a (ltb (suc n) 10) _ _ _
      (λ l. ground (
        arith,
        value-append a "0" (decimal_from (suc n) (suc n)),
        value-decimal_from_one (suc n) (10 * a) (suc n),
      ))
      (λ l. value-decimal_from_two n a (suc n) (ground arith) h)
