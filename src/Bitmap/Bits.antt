-- ===== src/Bitmap/Bits.antt =====
-- The bits of a word. Every bitwise operation of the bitmap is read off one bit at a time.
use Prim.Native.Nat.{min, max, digits, bitwise, bit_and, bit_or, bit_xor, differ}
use Prim.Native.Nat.{bit_and-bitwise, bit_or-bitwise, bit_xor-bitwise}
use native.Mathlib.Nat.{le_refl, pow-suc, one-le-pow}
use faas_share.Common.{
  ℕ, zero, suc, ◌+◌, ◌*◌, ◌/◌, ◌%◌, ◌^◌, ◌≤◌, ◌<◌, ◌≡◌, refl, ap, ◌∙◌, inl, inr, arith, ◌==◌,
  ==_iff, Bool-cases, if◌then◌else◌,
}

-- Bit `p` of `w`.
abbrev pub bit : ℕ → ℕ → ℕ
bit zero w = w % 2
bit (suc p) w = bit p (w / 2)

-- The library defines the native operations by a recursion on fuel; any fuel that suffices
-- gives the same digits.
module _ (tail : ℕ → ℕ) (f : ℕ → ℕ → ℕ) where
  same_digits : (k l a b : ℕ) → a ≤ k → a ≤ l → digits tail f k a b ≡ digits tail f l a b
  same_digits k zero (suc a) b h g = absurd (omega arith)
  same_digits zero l (suc a) b h g = absurd (omega arith)
  same_digits zero zero zero b h g = refl
  same_digits zero (suc l) zero b h g = refl
  same_digits (suc k) zero zero b h g = refl
  same_digits (suc k) (suc l) zero b h g = refl
  same_digits (suc k) (suc l) (suc a) b h g =
      ap (λ n. n * 2 + f (suc a % 2) (b % 2))
        (same_digits k l (suc a / 2) (b / 2) (omega arith) (omega arith))

  low_digit :
      (a b : ℕ)
      → bitwise tail f (suc a) b ≡ bitwise tail f (suc a / 2) (b / 2) * 2 + f (suc a % 2) (b % 2)
  low_digit a b =
      ap (λ n. n * 2 + f (suc a % 2) (b % 2))
        (same_digits a (suc a / 2) (suc a / 2) (b / 2) (omega arith) (le_refl _))

or_low : (a b : ℕ) → bit_or a b ≡ bit_or (a / 2) (b / 2) * 2 + max (a % 2) (b % 2)
or_low zero b = simp bit_or-bitwise (omega arith)
or_low (suc a) b = simp bit_or-bitwise (low_digit (λ y. y) max a b)

and_low : (a b : ℕ) → bit_and a b ≡ bit_and (a / 2) (b / 2) * 2 + min (a % 2) (b % 2)
and_low zero b = simp bit_and-bitwise (omega arith)
and_low (suc a) b = simp bit_and-bitwise (low_digit (λ y. 0) min a b)

xor_low : (a b : ℕ) → bit_xor a b ≡ bit_xor (a / 2) (b / 2) * 2 + differ (a % 2) (b % 2)
xor_low zero b = simp bit_xor-bitwise (omega arith)
xor_low (suc a) b = simp bit_xor-bitwise (low_digit (λ y. y) differ a b)

pub bit-le : (p w : ℕ) → bit p w ≤ 1
bit-le zero w = omega arith
bit-le (suc p) w = bit-le p (w / 2)

pub bit-or : (p a b : ℕ) → bit p (bit_or a b) ≡ max (bit p a) (bit p b)
bit-or zero a b = omega (arith, or_low a b)
bit-or (suc p) a b =
    let half : bit_or a b / 2 ≡ bit_or (a / 2) (b / 2) = omega (arith, or_low a b) in
    rw half (bit-or p (a / 2) (b / 2))

pub bit-and : (p a b : ℕ) → bit p (bit_and a b) ≡ min (bit p a) (bit p b)
bit-and zero a b = omega (arith, and_low a b)
bit-and (suc p) a b =
    let half : bit_and a b / 2 ≡ bit_and (a / 2) (b / 2) = omega (arith, and_low a b) in
    rw half (bit-and p (a / 2) (b / 2))

differ-le_one : (x y : ℕ) → x ≤ 1 → y ≤ 1 → differ x y ≤ 1
differ-le_one zero y h g = g
differ-le_one (suc x) zero h g = h
differ-le_one (suc x) (suc y) h g = differ-le_one x y (omega arith) (omega arith)

differ-le : (a b : ℕ) → differ (a % 2) (b % 2) ≤ 1
differ-le a b = differ-le_one (a % 2) (b % 2) (omega arith) (omega arith)

pub bit-xor : (p a b : ℕ) → bit p (bit_xor a b) ≡ differ (bit p a) (bit p b)
bit-xor zero a b = omega (arith, xor_low a b, differ-le a b)
bit-xor (suc p) a b =
    let half : bit_xor a b / 2 ≡ bit_xor (a / 2) (b / 2) =
      omega (arith, xor_low a b, differ-le a b) in
    rw half (bit-xor p (a / 2) (b / 2))

pub bit-zero : (p : ℕ) → bit p 0 ≡ 0
bit-zero zero = refl
bit-zero (suc p) = bit-zero p

-- `1 << o` has the one bit `o`.
pub bit-pow : (o p : ℕ) → bit p (2 ^ o) ≡ (if o == p then 1 else 0)
bit-pow zero zero = refl
bit-pow zero (suc p) = ground (arith, bit-zero p)
bit-pow (suc o) zero = rw pow-suc (ground arith)
bit-pow (suc o) (suc p) =
    let half : 2 ^ suc o / 2 ≡ 2 ^ o = rw pow-suc (omega arith) in
    rw half (ground (arith, bit-pow o p))

and-zero_fuel : (k w : ℕ) → w ≤ k → bit_and w 0 ≡ 0
and-zero_fuel k zero h = refl
and-zero_fuel zero (suc w) h = absurd (omega arith)
and-zero_fuel (suc k) (suc w) h =
    omega (arith, and_low (suc w) 0, and-zero_fuel k (suc w / 2) (omega arith))

-- The single bit that `w & (1 << p)` leaves.
pub and-pow : (p w : ℕ) → bit_and w (2 ^ p) ≡ bit p w * 2 ^ p
and-pow zero w = omega (arith, and_low w 1, and-zero_fuel (w / 2) (w / 2) (le_refl _))
and-pow (suc p) w =
    let half : 2 ^ suc p / 2 ≡ 2 ^ p = rw pow-suc (omega arith) in
    let even : 2 ^ suc p % 2 ≡ 0 = rw pow-suc (omega arith) in
    let low : bit_and w (2 ^ suc p) ≡ bit_and (w / 2) (2 ^ p) * 2 =
      and_low w (2 ^ suc p) ∙ rw (half, even) (omega arith) in
    low ∙ rw (and-pow p (w / 2), pow-suc) (omega arith)

-- `w & (1 << p) != 0` tells whether bit `p` is set.
pub and-pow-ne_zero : (p w : ℕ) → (bit_and w (2 ^ p) == 0) ≡ (bit p w == 0)
and-pow-ne_zero p w = ground (arith, and-pow p w, bit-le p w, one-le-pow p 2)

AllOnes : (n : ℕ) → Type 0
AllOnes zero = Unit
AllOnes (suc n) = (bit n 0xffffffffffffffff ≡ 1) × AllOnes n

AllOnes-below : (n p : ℕ) → AllOnes n → p < n → bit p 0xffffffffffffffff ≡ 1
unfolding AllOnes
AllOnes-below zero p h l = absurd (omega arith)
AllOnes-below (suc n) p h l = elim (Bool-cases (p == n)) [
  | inl e ↦ rw ((==_iff p n).0 e) h.0
  | inr e ↦ AllOnes-below n p h.1 (ground arith)
]

-- The word that `FindNextAndSet` skips has all of its 64 bits set.
pub bit-full : (p : ℕ) → p < 64 → bit p 0xffffffffffffffff ≡ 1
unfolding AllOnes
bit-full p h = AllOnes-below 64 p (omega arith) h
