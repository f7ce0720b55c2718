-- ===== src/Common/Print.antt =====
-- The verbs of Go's `fmt.Sprintf` and the trimming of texts that the program uses.
use Prim.Native.Nat.{ℕ, zero, suc, ◌/◌, ◌%◌}
use Prim.Native.Char.{Char, code}
use Prim.Native.String.{String}
use mathlib.Core.Bool.{Bool, ◌&&◌, ◌||◌}
use mathlib.Core.List.{[], ◌∷◌}
use faas_share.Common.Tests.{◌==◌, ltb, if◌then◌else◌}
use faas_share.Common.Lists.{get_or}
use faas_share.Common.Int.{ℤ, pos, negsuc}
use faas_share.Common.Text.{◌+++◌, is_empty}

abbrev pub digit : ℕ → String
digit d = get_or ("0" ∷ "1" ∷ "2" ∷ "3" ∷ "4" ∷ "5" ∷ "6" ∷ "7" ∷ "8" ∷ []) d "9"

-- A number in decimal, with one digit more than the rounds that are given.
unfoldable pub show_digits : ℕ → ℕ → String
show_digits zero n = digit (n % 10)
show_digits (suc rounds) n =
    let rest = show_digits rounds (n / 10) in if ltb n 10 then digit n else rest +++ digit (n % 10)

-- `fmt.Sprintf("%d", n)` and `strconv.Itoa(n)`, for numbers below 10^20, which every int64 is.
unfoldable pub show_int : ℤ → String
unfolding show_digits
show_int (pos n) = show_digits 19 n
show_int (negsuc n) = "-" +++ show_digits 19 (suc n)

abbrev is_blank : Char → Bool
is_blank c = (code c == b' ') || (code c == b'\n') || (code c == b'\t')

unfoldable pub trim_left : String → String
trim_left String.[] = ""
trim_left (String.◌∷◌ c s) = let rest = trim_left s in if is_blank c then rest else String.◌∷◌ c s

unfoldable pub trim_right : String → String
trim_right String.[] = ""
trim_right (String.◌∷◌ c s) =
    let rest = trim_right s in if is_blank c && is_empty rest then "" else String.◌∷◌ c rest

-- `strings.Trim(s, " \n\t")`
unfoldable pub trim : String → String
unfolding trim_left trim_right
trim s = trim_right (trim_left s)
