-- ===== src/AgentRegistry/Column.antt =====
-- The columns of tags: a list as JSON text, and the pattern that looks for one of its items.
use Prim.Native.Char.{Char, code}
use Prim.Native.String.{String, ◌++◌}
use Prim.Native.String as Text
use oma_server.Common.{
  ℕ, ◌/◌, ◌%◌, Bool, ◌||◌, List, [], ◌∷◌, Option, none, some, if◌then◌else◌, ltb, eqb, ◌==◌, digit,
  has_any,
}

-- `%x` of one digit.
unfoldable pub hex : ℕ → String
hex n =
    if ltb n 10
    then digit n
    else if eqb n 10
    then "a"
    else if eqb n 11
    then "b"
    else if eqb n 12
    then "c"
    else if eqb n 13
    then "d"
    else if eqb n 14
    then "e"
    else "f"

-- The characters that `json.Marshal` does not write as they are: the quote, the backslash and the
-- controls, and those that mean something in HTML or JavaScript.
unfoldable pub is_escaped : Char → Bool
is_escaped c =
    let n = code c in
    ltb n 0x20
    || eqb n 0x22
    || eqb n 0x5c
    || eqb n 0x3c
    || eqb n 0x3e
    || eqb n 0x26
    || eqb n 0x2028
    || eqb n 0x2029

unfoldable pub escape : Char → String
unfolding hex
escape c =
    let n = code c in
    if eqb n 0x22
    then "\\\""
    else if eqb n 0x5c
    then "\\\\"
    else if eqb n 8
    then "\\b"
    else if eqb n 12
    then "\\f"
    else if eqb n 10
    then "\\n"
    else if eqb n 13
    then "\\r"
    else if eqb n 9
    then "\\t"
    else if eqb n 0x2028
    then "\\u2028"
    else if eqb n 0x2029
    then "\\u2029"
    else "\\u00" ++ hex (n / 16) ++ hex (n % 16)

unfoldable pub escaped : String → String
unfolding is_escaped escape
escaped Text.[] = Text.[]
escaped (Text.◌∷◌ c s) = if is_escaped c then escape c ++ escaped s else Text.◌∷◌ c (escaped s)

abbrev pub quoted : String → String
quoted s = "\"" ++ s ++ "\""

unfoldable pub json_rest : List String → String
unfolding escaped
json_rest [] = "]"
json_rest (t ∷ ts) = "," ++ quoted (escaped t) ++ json_rest ts

-- `marshalStringList`
unfoldable pub marshal_string_list : List String → String
unfolding json_rest
marshal_string_list [] = "[]"
marshal_string_list (t ∷ ts) = "[" ++ quoted (escaped t) ++ json_rest ts

-- `jsonElemLike`, without the `%` at both ends of the pattern.
unfoldable pub json_elem_like : String → Option String
json_elem_like v = if v == "" || has_any v "%_\"\\" then none else some (quoted v)
