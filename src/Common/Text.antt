-- ===== src/Common/Text.antt =====
-- The functions of Go's `strings` and `strconv` that the program uses, on the characters of a text.
use Prim.Native.Nat.{ℕ, ◌+◌, ◌-◌, ◌*◌, ◌^◌}
use Prim.Native.Char.{Char, code}
use Prim.Native.String
use Prim.Native.String.{String}
use mathlib.Core.Bool.{Bool, true, false, ◌&&◌, ◌||◌}
use mathlib.Core.Option.{Option, none, some}
use mathlib.Core.List.{List, [], ◌∷◌}
use faas_share.Common.Tests.{◌==◌, leb, ltb, if◌then◌else◌}
use faas_share.Common.Int.{ℤ, pos, negsuc}

infixr 66 ◌+++◌
abbrev pub ◌+++◌ : String → String → String
s +++ t = String.◌++◌ s t

abbrev pub is_empty : String → Bool
is_empty String.[] = true
is_empty (String.◌∷◌ c s) = false

-- `strings.HasPrefix(s, p)`
unfoldable pub has_prefix : String → String → Bool
has_prefix s String.[] = true
has_prefix String.[] (String.◌∷◌ d p) = false
has_prefix (String.◌∷◌ c s) (String.◌∷◌ d p) = (code c == code d) && has_prefix s p

-- `strings.Contains(s, p)`
unfoldable pub contains : String → String → Bool
unfolding has_prefix
contains String.[] p = has_prefix "" p
contains (String.◌∷◌ c s) p = has_prefix (String.◌∷◌ c s) p || contains s p

-- One more character on the first part.
abbrev pub onto_first : Char → List String → List String
onto_first c [] = String.◌∷◌ c "" ∷ []
onto_first c (t ∷ ts) = String.◌∷◌ c t ∷ ts

-- `strings.Split(s, sep)` at a separator of one character, given by its code.
unfoldable pub split : ℕ → String → List String
split sep String.[] = "" ∷ []
split sep (String.◌∷◌ c s) =
    let parts = split sep s in if code c == sep then "" ∷ parts else onto_first c parts

-- `strings.Count(s, sep)` for one character.
unfoldable pub count_char : ℕ → String → ℕ
count_char k String.[] = 0
count_char k (String.◌∷◌ c s) = (if code c == k then 1 else 0) + count_char k s

-- `strings.ReplaceAll(s, old, new)` for one character.
unfoldable pub replace_char : ℕ → Char → String → String
replace_char k d String.[] = ""
replace_char k d (String.◌∷◌ c s) = String.◌∷◌ (if code c == k then d else c) (replace_char k d s)

unfoldable pub is_digit : Char → Bool
is_digit c = leb b'0' (code c) && leb (code c) b'9'

-- The value of a text of digits alone, with what stands before it.
unfoldable pub digits_value : ℕ → String → Option ℕ
unfolding is_digit
digits_value acc String.[] = some acc
digits_value acc (String.◌∷◌ c s) =
    let rest = digits_value (acc * 10 + (code c - b'0')) s in if is_digit c then rest else none

unfoldable pub magnitude : String → Option ℕ
unfolding digits_value
magnitude String.[] = none
magnitude (String.◌∷◌ c s) = digits_value 0 (String.◌∷◌ c s)

abbrev positive : Option ℕ → Option ℤ
positive none = none
positive (some n) = if ltb n (2 ^ 63) then some (pos n) else none

abbrev negative : Option ℕ → Option ℤ
negative none = none
negative (some n) =
    if n == 0 then some (pos 0) else if leb n (2 ^ 63) then some (negsuc (n - 1)) else none

-- `strconv.ParseInt(s, 10, 64)`, and `strconv.Atoi` where an int has 64 bits; `none` for an error.
unfoldable pub parse_int : String → Option ℤ
unfolding magnitude
parse_int String.[] = none
parse_int (String.◌∷◌ c s) =
    if code c == b'+'
    then positive (magnitude s)
    else if code c == b'-'
    then negative (magnitude s)
    else positive (magnitude (String.◌∷◌ c s))

-- The first part of a split; a split is never empty.
abbrev pub first_part : List String → String
first_part [] = ""
first_part (s ∷ ss) = s
