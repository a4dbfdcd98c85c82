-- ===== src/Common/Find.antt =====
-- `strings.Contains` and `strings.ContainsAny`.
use Prim.Native.Char.{Char, code}
use Prim.Native.String.{String, ◌++◌}
use Prim.Native.String as Text
use mathlib.Core.Path.{◌≡◌, refl}
use mathlib.Core.Bool.{Bool, true, false, ◌&&◌, ◌||◌}
use native.Mathlib.Omega.{arith}
use text.Mathlib.TextLemmas.{nil-append, cons-append}
use oma_server.Common.Tests.{eqb}

unfoldable pub starts : String → String → Bool
starts s Text.[] = true
starts Text.[] (Text.◌∷◌ c p) = false
starts (Text.◌∷◌ d s) (Text.◌∷◌ c p) = eqb (code d) (code c) && starts s p

-- `strings.Contains(s, p)`
unfoldable pub has_part : String → String → Bool
unfolding starts
has_part Text.[] p = starts Text.[] p
has_part (Text.◌∷◌ c s) p = starts (Text.◌∷◌ c s) p || has_part s p

unfoldable pub has_char : Char → String → Bool
has_char c Text.[] = false
has_char c (Text.◌∷◌ d s) = eqb (code d) (code c) || has_char c s

-- `strings.ContainsAny(s, chars)`
unfoldable pub has_any : String → String → Bool
unfolding has_char
has_any Text.[] chars = false
has_any (Text.◌∷◌ c s) chars = has_char c chars || has_any s chars

starts-append : (p t : String) → starts (p ++ t) p ≡ true
unfolding starts
starts-append Text.[] t = refl
starts-append (Text.◌∷◌ c p) t = rw (cons-append c p t) (ground (arith, starts-append p t))

has_part_of_starts : (s p : String) → starts s p ≡ true → has_part s p ≡ true
unfolding has_part
has_part_of_starts Text.[] p h = h
has_part_of_starts (Text.◌∷◌ c s) p h = ground (arith, h)

-- A text contains what stands in it.
pub has_part-append : (s p t : String) → has_part (s ++ p ++ t) p ≡ true
unfolding has_part
has_part-append Text.[] p t =
    rw (nil-append (p ++ t)) (has_part_of_starts (p ++ t) p (starts-append p t))
has_part-append (Text.◌∷◌ c s) p t =
    rw (cons-append c s (p ++ t)) (ground (arith, has_part-append s p t))
