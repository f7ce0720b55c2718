-- ===== src/Common/Lines.antt =====
-- `bufio.Reader.ReadString('\n')` on a stream that ends: the results of the calls, in order.
use Prim.Native.Char.{Char, code}
use Prim.Native.String.{String}
use mathlib.Core.Path.{◌≡◌, refl}
use mathlib.Core.Logic.{inl, inr}
use mathlib.Core.Option.{Option, none, some}
use mathlib.Core.List.{List, [], ◌∷◌}
use native.Mathlib.Omega.{arith}
use text.Mathlib.TextLemmas.{nil-append, cons-append}
use faas_share.Common.Tests.{◌==◌, if◌then◌else◌, Bool-cases}
use faas_share.Common.Text.{◌+++◌, count_char}

abbrev onto_line : Char → List String → List String
onto_line c [] = []
onto_line c (l ∷ ls) = String.◌∷◌ c l ∷ ls

-- The lines, each with its newline; what stands after the last newline is no line, and the call for
-- it returns an error.
unfoldable pub read_lines : String → List String
read_lines String.[] = []
read_lines (String.◌∷◌ c s) =
    let rest = read_lines s in if code c == b'\n' then "\n" ∷ rest else onto_line c rest

-- `s[:len(s)-1]`; `none` for the empty text, which panics.
unfoldable pub drop_last : String → Option String
drop_last String.[] = none
drop_last (String.◌∷◌ c s) = elim (drop_last s) [ none ↦ some "" | some t ↦ some (String.◌∷◌ c t) ]

pub read_lines-line :
    (l rest : String)
    → count_char b'\n' l ≡ 0
    → read_lines (l +++ "\n" +++ rest) ≡ (l +++ "\n") ∷ read_lines rest
unfolding read_lines count_char
read_lines-line String.[] rest h =
    rw (nil-append ("\n" +++ rest), nil-append "\n", cons-append "\n" "" rest, nil-append rest) refl
read_lines-line (String.◌∷◌ c l) rest h = elim (Bool-cases (code c == b'\n')) [
  | inl e ↦ absurd (ground arith)
  | inr e ↦
      rw
        (
          cons-append c l ("\n" +++ rest),
          cons-append c l "\n",
          e,
          read_lines-line l rest (ground arith),
        )
        refl
]

pub drop_last-append : (s : String) (c : Char) → drop_last (s +++ String.◌∷◌ c "") ≡ some s
unfolding drop_last
drop_last-append String.[] c = rw (nil-append (String.◌∷◌ c "")) refl
drop_last-append (String.◌∷◌ d s) c =
    rw (cons-append d s (String.◌∷◌ c ""), drop_last-append s c, drop_last) refl
