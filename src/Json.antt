-- ===== src/Json.antt =====
-- `json.dumps(value, separators=(",", ":"), sort_keys=True)`: the standard library's text of a
-- value, with every key, non-ASCII character and control character written as it writes them.
use Prim.Native.Nat.{◌%◌}
use Prim.Native.Char.{code}
use Prim.Native.String.{compare}
use Prim.Native.Nat.{Ordering}
use agentdesk_ai.Base.{
  ℕ, zero, suc, ◌+◌, ◌-◌, ◌/◌, Bool, true, false, ◌&&◌, List, [], ◌∷◌, String, ◌<>◌, ltb, leb, ◌==◌,
  if◌then◌else◌,
}
use agentdesk_ai.Models.Records.{Json, Members, null, bool, int, float, str, obj, end, member}

abbrev digit : ℕ → String
digit d =
    if d == 0
    then "0"
    else if d == 1
    then "1"
    else if d == 2
    then "2"
    else if d == 3
    then "3"
    else if d == 4
    then "4"
    else if d == 5
    then "5"
    else if d == 6
    then "6"
    else if d == 7
    then "7"
    else if d == 8
    then "8"
    else if d == 9
    then "9"
    else if d == 10
    then "a"
    else if d == 11
    then "b"
    else if d == 12
    then "c"
    else if d == 13
    then "d"
    else if d == 14
    then "e"
    else "f"

-- The decimal digits of `n`, in front of `rest`; a number has fewer digits than its successor.
decimal_from : ℕ → ℕ → String → String
decimal_from zero n rest = rest
decimal_from (suc fuel) n rest =
    let text = digit (n % 10) <> rest in
    let more = decimal_from fuel (n / 10) text in if ltb n 10 then text else more

unfoldable pub decimal : ℕ → String
unfolding decimal_from
decimal n = decimal_from (suc n) n ""

-- `\uXXXX`
unicode_escape : ℕ → String
unicode_escape c =
    "\\u"
    <> (digit (c / 4096 % 16) <> (digit (c / 256 % 16) <> (digit (c / 16 % 16) <> digit (c % 16))))

-- Beyond the basic plane: a pair of surrogates.
wide_escape : ℕ → String
unfolding unicode_escape
wide_escape c =
    unicode_escape (0xd800 + (c - 0x10000) / 1024) <> unicode_escape (0xdc00 + (c - 0x10000) % 1024)

-- A character of a text, by its code point and as it stands.
escape_char : ℕ → String → String
unfolding unicode_escape wide_escape
escape_char c plain =
    if c == 34
    then "\\\""
    else if c == 92
    then "\\\\"
    else if c == 10
    then "\\n"
    else if c == 13
    then "\\r"
    else if c == 9
    then "\\t"
    else if c == 12
    then "\\f"
    else if c == 8
    then "\\b"
    else if leb 32 c && leb c 126
    then plain
    else if ltb c 0x10000
    then unicode_escape c
    else wide_escape c

unfoldable pub escape : String → String
unfolding escape_char
escape String.[] = ""
escape (String.◌∷◌ c s) = escape_char (code c) (String.◌∷◌ c String.[]) <> escape s

unfoldable pub quoted : String → String
unfolding escape
quoted s = "\"" <> (escape s <> "\"")

-- `sorted(dct.items())` by the key; Python compares texts by code points.
key_le : String → String → Bool
key_le s t = elim (compare s t) [ Ordering.gt ↦ false | _ ↦ true ]

abbrev Printed : Type 0
Printed = List (String × String)

insert_key : String → String → Printed → Printed
unfolding key_le
insert_key k v [] = (k, v) ∷ []
insert_key k v ((j, w) ∷ rest) =
    let later = insert_key k v rest in if key_le k j then (k, v) ∷ (j, w) ∷ rest else (j, w) ∷ later

join_members : Printed → String
unfolding quoted
join_members [] = ""
join_members ((k, v) ∷ []) = quoted k <> (":" <> v)
join_members ((k, v) ∷ (j, w) ∷ rest) =
    quoted k <> (":" <> (v <> ("," <> join_members ((j, w) ∷ rest))))

module _ {F : Type 0} (str_float : F → String) where
  mutual
    unfolding insert_key join_members decimal quoted

    dumps_value : Json F → String
    dumps_value null = "null"
    dumps_value (bool true) = "true"
    dumps_value (bool false) = "false"
    dumps_value (int n) = decimal n
    dumps_value (float x) = str_float x
    dumps_value (str s) = quoted s
    dumps_value (obj ms) = "{" <> (join_members (sorted_members ms) <> "}")

    sorted_members : Members F → Printed
    sorted_members end = []
    sorted_members (member k v ms) = insert_key k (dumps_value v) (sorted_members ms)

  unfoldable pub dumps : Json F → String
  unfolding dumps_value
  dumps v = dumps_value v
