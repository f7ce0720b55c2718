-- ===== src/Common/Decimal.antt =====
-- A number that is printed in decimal is read back.
use Prim.Native.Nat.{ℕ, zero, suc, ◌+◌, ◌*◌, ◌/◌, ◌%◌, ◌^◌, ◌<◌}
use Prim.Native.Char.{code}
use Prim.Native.String.{String}
use mathlib.Core.Path.{◌≡◌, refl, ◌∙◌}
use mathlib.Core.Logic.{inl, inr}
use mathlib.Core.Bool.{true, false}
use mathlib.Core.Option.{some}
use native.Mathlib.Omega.{arith}
use text.Mathlib.TextLemmas.{nil-append, cons-append}
use faas_share.Common.Tests.{◌==◌, ltb, Bool-cases}
use faas_share.Common.Int.{pos}
use faas_share.Common.Text.{◌+++◌, is_empty, is_digit, digits_value, magnitude, parse_int}
use faas_share.Common.Print.{digit, show_digits, show_int}

-- Ten times as often as there are rounds, and once more.
abbrev tens : ℕ → ℕ
tens zero = 10
tens (suc r) = 10 * tens r

digits_value-append :
    (s t : String) (acc v : ℕ)
    → digits_value acc s ≡ some v
    → digits_value acc (s +++ t) ≡ digits_value v t
unfolding digits_value
digits_value-append String.[] t acc v h =
    let e : acc ≡ v = ground arith in rw (nil-append t, e) refl
digits_value-append (String.◌∷◌ c s) t acc v h = elim (Bool-cases (is_digit c)) [
  | inl e ↦ rw (cons-append c s t, e) (digits_value-append s t _ v (ground arith))
  | inr e ↦ absurd (ground arith)
]

digits_value-digit : (acc d : ℕ) → d < 10 → digits_value acc (digit d) ≡ some (acc * 10 + d)
unfolding digits_value is_digit
digits_value-digit acc zero h = refl
digits_value-digit acc (suc zero) h = refl
digits_value-digit acc (suc (suc zero)) h = refl
digits_value-digit acc (suc (suc (suc zero))) h = refl
digits_value-digit acc (suc (suc (suc (suc zero)))) h = refl
digits_value-digit acc (suc (suc (suc (suc (suc zero))))) h = refl
digits_value-digit acc (suc (suc (suc (suc (suc (suc zero)))))) h = refl
digits_value-digit acc (suc (suc (suc (suc (suc (suc (suc zero))))))) h = refl
digits_value-digit acc (suc (suc (suc (suc (suc (suc (suc (suc zero)))))))) h = refl
digits_value-digit acc (suc (suc (suc (suc (suc (suc (suc (suc (suc n))))))))) h =
    let e : n ≡ 0 = omega arith in rw e refl

digits_value-show :
    (rounds n : ℕ) → n < tens rounds → digits_value 0 (show_digits rounds n) ≡ some n
unfolding show_digits
digits_value-show zero n h = digits_value-digit 0 (n % 10) (omega arith) ∙ ground arith
digits_value-show (suc rounds) n h = elim (Bool-cases (ltb n 10)) [
  | inl e ↦ rw e (digits_value-digit 0 n (ground arith) ∙ ground arith)
  | inr e ↦ rw e (
      digits_value-append (show_digits rounds (n / 10)) (digit (n % 10)) 0 (n / 10)
        (digits_value-show rounds (n / 10) (omega arith))
      ∙ digits_value-digit (n / 10) (n % 10) (omega arith)
      ∙ ground arith)
]

is_empty-digit : (d : ℕ) → is_empty (digit d) ≡ false
is_empty-digit zero = refl
is_empty-digit (suc zero) = refl
is_empty-digit (suc (suc zero)) = refl
is_empty-digit (suc (suc (suc zero))) = refl
is_empty-digit (suc (suc (suc (suc zero)))) = refl
is_empty-digit (suc (suc (suc (suc (suc zero))))) = refl
is_empty-digit (suc (suc (suc (suc (suc (suc zero)))))) = refl
is_empty-digit (suc (suc (suc (suc (suc (suc (suc zero))))))) = refl
is_empty-digit (suc (suc (suc (suc (suc (suc (suc (suc zero)))))))) = refl
is_empty-digit (suc (suc (suc (suc (suc (suc (suc (suc (suc n))))))))) = refl

is_empty-append : (s t : String) → is_empty t ≡ false → is_empty (s +++ t) ≡ false
is_empty-append String.[] t h = rw (nil-append t) h
is_empty-append (String.◌∷◌ c s) t h = rw (cons-append c s t) refl

is_empty-show : (rounds n : ℕ) → is_empty (show_digits rounds n) ≡ false
unfolding show_digits
is_empty-show zero n = is_empty-digit (n % 10)
is_empty-show (suc rounds) n = elim (Bool-cases (ltb n 10)) [
  | inl e ↦ rw e (is_empty-digit n)
  | inr e ↦
      rw e
        (is_empty-append (show_digits rounds (n / 10)) (digit (n % 10)) (is_empty-digit (n % 10)))
]

-- A text of digits has no sign in front.
parse_int-digits :
    (s : String) (n : ℕ)
    → is_empty s ≡ false
    → digits_value 0 s ≡ some n
    → n < 2 ^ 63
    → parse_int s ≡ some (pos n)
unfolding parse_int digits_value is_digit magnitude
parse_int-digits String.[] n full h small = absurd (cc full)
parse_int-digits (String.◌∷◌ c s) n full h small = elim (Bool-cases (is_digit c)) [
  | inr e ↦ absurd (ground (arith, e, h))
  | inl e ↦
      let plus : (code c == b'+') ≡ false = ground (arith, e) in
      let minus : (code c == b'-') ≡ false = ground (arith, e) in
      let fits : ltb n (2 ^ 63) ≡ true = ground (arith, small) in rw (plus, minus, h, fits) refl
]

-- What `strconv.FormatUint` prints of a number below 2^63, `strconv.ParseInt` reads.
pub parse_int-show_int : (n : ℕ) → n < 2 ^ 63 → parse_int (show_int (pos n)) ≡ some (pos n)
unfolding show_int
parse_int-show_int n small =
    parse_int-digits (show_digits 19 n) n (is_empty-show 19 n)
      (digits_value-show 19 n (omega (arith, small))) small
