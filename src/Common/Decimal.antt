-- ===== src/Common/Decimal.antt =====
-- Numbers in decimal: `%d` and `%02d`.
use Prim.Native.Nat.{ℕ, zero, suc, ◌/◌, ◌%◌, ◌≤◌, ◌<◌, ◌+◌}
use Prim.Native.String.{String, ◌++◌, len}
use mathlib.Core.Path.{◌≡◌, refl}
use mathlib.Core.Bool.{Bool, true, false}
use native.Mathlib.Omega.{arith}
use text.Mathlib.TextPositions.{len-append}
use oma_server.Common.Tests.{if◌then◌else◌, ltb, eqb}

unfoldable pub digit : ℕ → String
digit n =
    if eqb n 0
    then "0"
    else if eqb n 1
    then "1"
    else if eqb n 2
    then "2"
    else if eqb n 3
    then "3"
    else if eqb n 4
    then "4"
    else if eqb n 5
    then "5"
    else if eqb n 6
    then "6"
    else if eqb n 7
    then "7"
    else if eqb n 8
    then "8"
    else "9"

-- The fuel is the number itself, and a tenth of it is less.
unfoldable pub decimal_from : ℕ → ℕ → String
unfolding digit
decimal_from zero n = digit n
decimal_from (suc fuel) n =
    let higher = decimal_from fuel (n / 10) in
    if ltb n 10 then digit n else higher ++ digit (n % 10)

-- `%d`
unfoldable pub decimal : ℕ → String
unfolding decimal_from
decimal n = decimal_from n n

-- `%02d`
unfoldable pub padded : ℕ → String
unfolding decimal
padded n = if ltb n 10 then "0" ++ decimal n else decimal n

len_if : (b : Bool) (s t : String) → len s ≡ 1 → len t ≡ 1 → len (if b then s else t) ≡ 1
len_if true s t p q = p
len_if false s t p q = q

len-digit : (n : ℕ) → len (digit n) ≡ 1
unfolding digit
len-digit n = len_if (eqb n 0) _ _ refl (
    len_if (eqb n 1) _ _ refl (
      len_if (eqb n 2) _ _ refl (
        len_if (eqb n 3) _ _ refl (
          len_if (eqb n 4) _ _ refl (
            len_if (eqb n 5) _ _ refl (
              len_if (eqb n 6) _ _ refl
                (len_if (eqb n 7) _ _ refl (len_if (eqb n 8) _ _ refl refl))))))))

len-decimal_from_one : (f n : ℕ) → n < 10 → len (decimal_from f n) ≡ 1
unfolding decimal_from
len-decimal_from_one zero n h = len-digit n
len-decimal_from_one (suc f) n h = ground (arith, len-digit n)

len-decimal_from-suc :
    (f n k : ℕ) → 10 ≤ n → len (decimal_from f (n / 10)) ≡ k → len (decimal_from (suc f) n) ≡ k + 1
unfolding decimal_from
len-decimal_from-suc f n k h ih =
    ground (arith, len-digit (n % 10), len-append (decimal_from f (n / 10)) (digit (n % 10)))

len-decimal_from_two : (f n : ℕ) → 10 ≤ n → n < 100 → len (decimal_from (suc f) n) ≡ 2
len-decimal_from_two f n h l =
    len-decimal_from-suc f n 1 h (len-decimal_from_one f (n / 10) (omega arith))

pub len-padded : (n : ℕ) → n < 100 → len (padded n) ≡ 2
unfolding padded decimal
len-padded zero h = ground (arith, len-append "0" (decimal_from 0 0), len-digit 0)
len-padded (suc n) h = ground (
  arith,
  len-append "0" (decimal_from (suc n) (suc n)),
  len-decimal_from_one (suc n) (suc n),
  len-decimal_from_two n (suc n),
)

-- A year of four digits has four.
pub len-decimal_four : (n : ℕ) → 1000 ≤ n → n < 10000 → len (decimal n) ≡ 4
unfolding decimal
len-decimal_four zero h l = absurd (omega arith)
len-decimal_four (suc zero) h l = absurd (omega arith)
len-decimal_four (suc (suc zero)) h l = absurd (omega arith)
len-decimal_four (suc (suc (suc n))) h l =
    let m = suc (suc (suc n)) in
    len-decimal_from-suc (suc (suc n)) m 3 (omega arith) (
      len-decimal_from-suc (suc n) (m / 10) 2 (omega arith)
        (len-decimal_from_two n (m / 10 / 10) (omega arith) (omega arith)))
