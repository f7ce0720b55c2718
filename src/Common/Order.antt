-- ===== src/Common/Order.antt =====
-- Go's order on strings, `sort.Strings`, and `strings.TrimSpace(s) == ""`.
use Prim.Native.Nat.{ℕ}
use Prim.Native.Char.{code}
use Prim.Native.String.{String}
use mathlib.Core.Path.{◌≡◌, refl}
use mathlib.Core.Logic.{inl, inr}
use mathlib.Core.Bool.{Bool, true, false, ◌&&◌, ◌||◌}
use mathlib.Core.List.{List, [], ◌∷◌, Perm}
use mathlib.Core.List.Perm
use native.Mathlib.Omega.{arith}
use faas_share.Common.Tests.{◌==◌, leb, ltb, if◌then◌else◌, Bool-cases}

-- `s <= t`
unfoldable pub text_leb : String → String → Bool
text_leb String.[] t = true
text_leb (String.◌∷◌ c s) String.[] = false
text_leb (String.◌∷◌ c s) (String.◌∷◌ d t) =
    let rest = text_leb s t in if code c == code d then rest else ltb (code c) (code d)

unfoldable pub insert_text : String → List String → List String
insert_text s [] = s ∷ []
insert_text s (t ∷ ts) = elim (text_leb s t) [ true ↦ s ∷ t ∷ ts | false ↦ t ∷ insert_text s ts ]

-- `sort.Strings`: equal strings are the same, so that every sort gives the same list.
unfoldable pub sort_texts : List String → List String
unfolding insert_text
sort_texts [] = []
sort_texts (s ∷ ss) = insert_text s (sort_texts ss)

abbrev Above : String → List String → Type 0
Above s [] = Unit
Above s (t ∷ ts) = text_leb s t ≡ true

abbrev pub Ascending : List String → Type 0
Ascending [] = Unit
Ascending (s ∷ ss) = Above s ss × Ascending ss

text_leb-total : (s t : String) → text_leb s t ≡ false → text_leb t s ≡ true
unfolding text_leb
text_leb-total String.[] t h = absurd (cc h)
text_leb-total (String.◌∷◌ c s) String.[] h = refl
text_leb-total (String.◌∷◌ c s) (String.◌∷◌ d t) h = ground (arith, text_leb-total s t)

insert_text-Above :
    (s t : String) (ts : List String)
    → Above t ts
    → text_leb t s ≡ true
    → Above t (insert_text s ts)
unfolding insert_text
insert_text-Above s t [] a h = h
insert_text-Above s t (u ∷ ts) a h = elim (Bool-cases (text_leb s u)) [
  | inl e ↦ rw (e, insert_text) h
  | inr e ↦ rw (e, insert_text) a
]

insert_text-Ascending :
    (s : String) (ts : List String) → Ascending ts → Ascending (insert_text s ts)
unfolding insert_text
insert_text-Ascending s [] a = (tt, tt)
insert_text-Ascending s (t ∷ ts) a = elim (Bool-cases (text_leb s t)) [
  | inl e ↦ rw (e, insert_text) (e, a)
  | inr e ↦
      rw (e, insert_text)
        (insert_text-Above s t ts a.0 (text_leb-total s t e), insert_text-Ascending s ts a.1)
]

pub sort_texts-Ascending : (ss : List String) → Ascending (sort_texts ss)
unfolding sort_texts
sort_texts-Ascending [] = tt
sort_texts-Ascending (s ∷ ss) = insert_text-Ascending s (sort_texts ss) (sort_texts-Ascending ss)

insert_text-perm : (s : String) (ts : List String) → Perm (insert_text s ts) (s ∷ ts)
unfolding insert_text
insert_text-perm s [] = Perm.rfl
insert_text-perm s (t ∷ ts) = elim (Bool-cases (text_leb s t)) [
  | inl e ↦ rw (e, insert_text) Perm.rfl
  | inr e ↦
      rw (e, insert_text) (Perm.trans (Perm.cons t (insert_text-perm s ts)) (Perm.swap s t ts))
]

pub sort_texts-perm : (ss : List String) → Perm (sort_texts ss) ss
unfolding sort_texts
sort_texts-perm [] = Perm.rfl
sort_texts-perm (s ∷ ss) =
    Perm.trans (insert_text-perm s (sort_texts ss)) (Perm.cons s (sort_texts-perm ss))

between : ℕ → ℕ → ℕ → Bool
between a b n = leb a n && leb n b

-- `unicode.IsSpace`
is_space : ℕ → Bool
unfolding between
is_space n =
    between 9 13 n
    || (n == 32)
    || (n == 133)
    || (n == 160)
    || (n == 5760)
    || between 8192 8202 n
    || (n == 8232)
    || (n == 8233)
    || (n == 8239)
    || (n == 8287)
    || (n == 12288)

-- `strings.TrimSpace(s) == ""`
unfoldable pub is_blank_text : String → Bool
unfolding is_space
is_blank_text String.[] = true
is_blank_text (String.◌∷◌ c s) = is_space (code c) && is_blank_text s
