-- ===== src/Common/TextLaws.antt =====
-- The functions of Common.Text on texts put together, and on texts without the separator.
use Prim.Native.Nat.{ℕ, zero, suc, ◌+◌, ◌/◌, ◌%◌}
use Prim.Native.Char.{Char, code}
use Prim.Native.String.{String}
use mathlib.Core.Path.{◌≡◌, refl, ap}
use mathlib.Core.Logic.{inl, inr}
use mathlib.Core.List.{List, [], ◌∷◌}
use native.Mathlib.Omega.{arith}
use text.Mathlib.TextLemmas.{nil-append, cons-append}
use faas_share.Common.Tests.{◌==◌, ltb, if◌then◌else◌, Bool-cases, ==_refl}
use faas_share.Common.Lists.{All, get_or}
use faas_share.Common.Int.{ℤ, pos, negsuc}
use faas_share.Common.Text.{◌+++◌, split, count_char, replace_char}
use faas_share.Common.Print.{digit, show_digits, show_int}

pub count_char-append :
    (k : ℕ) (s t : String) → count_char k (s +++ t) ≡ count_char k s + count_char k t
unfolding count_char
count_char-append k String.[] t = rw (nil-append t) (omega arith)
count_char-append k (String.◌∷◌ c s) t =
    rw (cons-append c s t) (let ih = count_char-append k s t in omega (arith, ih))

pub replace_char-append :
    (k : ℕ) (d : Char) (s t : String)
    → replace_char k d (s +++ t) ≡ replace_char k d s +++ replace_char k d t
unfolding replace_char
replace_char-append k d String.[] t = rw (nil-append t, nil-append (replace_char k d t)) refl
replace_char-append k d (String.◌∷◌ c s) t =
    rw
      (
        cons-append c s t,
        cons-append (if code c == k then d else c) (replace_char k d s) (replace_char k d t),
      )
      (ap (String.◌∷◌ (if code c == k then d else c)) (replace_char-append k d s t))

pub replace_char-none :
    (k : ℕ) (d : Char) (s : String) → count_char k s ≡ 0 → replace_char k d s ≡ s
unfolding replace_char count_char
replace_char-none k d String.[] h = refl
replace_char-none k d (String.◌∷◌ c s) h = elim (Bool-cases (code c == k)) [
  | inl e ↦ absurd (ground arith)
  | inr e ↦ rw e (ap (String.◌∷◌ c) (replace_char-none k d s (ground arith)))
]

pub split-none : (k : ℕ) (s : String) → count_char k s ≡ 0 → split k s ≡ s ∷ []
unfolding split count_char
split-none k String.[] h = refl
split-none k (String.◌∷◌ c s) h = elim (Bool-cases (code c == k)) [
  | inl e ↦ absurd (ground arith)
  | inr e ↦ rw (e, split-none k s (ground arith)) refl
]

pub split-append :
    (c : Char) (s t : String)
    → count_char (code c) s ≡ 0
    → split (code c) (s +++ String.◌∷◌ c t) ≡ s ∷ split (code c) t
unfolding split count_char
split-append c String.[] t h = rw (nil-append (String.◌∷◌ c t), ==_refl (code c)) refl
split-append c (String.◌∷◌ d s) t h = elim (Bool-cases (code d == code c)) [
  | inl e ↦ absurd (ground arith)
  | inr e ↦ rw (cons-append d s (String.◌∷◌ c t), e, split-append c s t (ground arith)) refl
]

count_char-get_or :
    (k : ℕ) (xs : List String) (i : ℕ) (d : String)
    → All (λ x. count_char k x ≡ 0) xs
    → count_char k d ≡ 0
    → count_char k (get_or xs i d) ≡ 0
count_char-get_or k [] i d h g = g
count_char-get_or k (x ∷ xs) zero d h g = h.0
count_char-get_or k (x ∷ xs) (suc i) d h g = count_char-get_or k xs i d h.1 g

-- A character that is no digit.
abbrev pub NotDigit : ℕ → Type 0
NotDigit k =
    All (λ x. count_char k x ≡ 0)
      ("0" ∷ "1" ∷ "2" ∷ "3" ∷ "4" ∷ "5" ∷ "6" ∷ "7" ∷ "8" ∷ "9" ∷ "-" ∷ [])

count_char-digit : (k d : ℕ) → NotDigit k → count_char k (digit d) ≡ 0
count_char-digit k d (h0, (h1, (h2, (h3, (h4, (h5, (h6, (h7, (h8, (h9, _)))))))))) =
    count_char-get_or k ("0" ∷ "1" ∷ "2" ∷ "3" ∷ "4" ∷ "5" ∷ "6" ∷ "7" ∷ "8" ∷ []) d "9"
      (h0, (h1, (h2, (h3, (h4, (h5, (h6, (h7, (h8, tt))))))))) h9

count_char-show_digits : (k rounds n : ℕ) → NotDigit k → count_char k (show_digits rounds n) ≡ 0
unfolding show_digits
count_char-show_digits k zero n h = count_char-digit k (n % 10) h
count_char-show_digits k (suc rounds) n h = elim (Bool-cases (ltb n 10)) [
  | inl e ↦ rw e (count_char-digit k n h)
  | inr e ↦
      rw
        (
          e,
          count_char-append k (show_digits rounds (n / 10)) (digit (n % 10)),
          count_char-show_digits k rounds (n / 10) h,
          count_char-digit k (n % 10) h,
        )
        refl
]

minus : (k : ℕ) → NotDigit k → count_char k "-" ≡ 0
minus k (_, (_, (_, (_, (_, (_, (_, (_, (_, (_, (m, _))))))))))) = m

-- A printed number holds digits and a sign only.
pub count_char-show_int : (k : ℕ) (x : ℤ) → NotDigit k → count_char k (show_int x) ≡ 0
unfolding show_int
count_char-show_int k (pos n) h = count_char-show_digits k 19 n h
count_char-show_int k (negsuc n) h =
    rw (count_char-append k "-" (show_digits 19 (suc n)), count_char-show_digits k 19 (suc n) h)
      (omega (arith, minus k h))
