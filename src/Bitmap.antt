-- ===== src/Bitmap.antt =====
-- pkg/lib/bitmap: `Bitmap64` and the round-robin bitmap over it. A word is a number below 2^64; a
-- shift by a count below 64 does not overflow. Positions that the code can only pass as
-- non-negative are naturals; `mask_at` and `unmask_at` take Go's signed positions, with `none`
-- for a panic.
pub mod Bits
pub mod Laws
pub mod RoundRobin
pub mod Leases
mod Tests
use Prim.Native.Nat.{bit_and, bit_or, bit_xor}
use faas_share.Common.{
  ℕ, zero, suc, ◌+◌, ◌-◌, ◌*◌, ◌/◌, ◌%◌, ◌^◌, ◌≡◌, Bool, true, false, ◌&&◌, not, Option, none, some,
  List, [], ◌∷◌, ◌++◌, arith, ltb, ◌==◌, if◌then◌else◌, length, get_or, set, ℤ, pos, negsuc,
}

pub record Bitmap64 : Type 0 where
  pub bits : List ℕ

abbrev pub full_word : ℕ
full_word = 0xffffffffffffffff

abbrev pub no_bits : Bitmap64
no_bits = record { bits = [] }

-- `IsMasked`
unfoldable pub is_masked : Bitmap64 → ℕ → Bool
is_masked b p =
    ltb (p / 64) (length b.bits) && not (bit_and (get_or b.bits (p / 64) 0) (2 ^ (p % 64)) == 0)

-- The loop of `Mask` that appends words, with the rounds that are left.
pub append_words : ℕ → List ℕ → List ℕ
append_words zero bits = bits
append_words (suc rounds) bits = append_words rounds (bits ++ 0 ∷ [])

-- `Mask`
unfoldable pub mask : Bitmap64 → ℕ → Bitmap64
unfolding append_words
mask b p =
    let idx = p / 64 in
    let words = append_words (suc idx - length b.bits) b.bits in
    record b { bits = set words idx (bit_or (get_or words idx 0) (2 ^ (p % 64))) }

-- `Unmask`; an index past the words panics.
unfoldable pub unmask : Bitmap64 → ℕ → Option Bitmap64
unmask b p =
    let idx = p / 64 in
    let word = bit_and (get_or b.bits idx 0) (bit_xor full_word (2 ^ (p % 64))) in
    if ltb idx (length b.bits) then some (record b { bits = set b.bits idx word }) else none

-- `Mask` at an `int`. A negative position is -(n + 1): its index is -((n + 1) / 64), which panics
-- unless it is 0, and there the shift count is past the word, so no bit changes.
unfoldable pub mask_at : Bitmap64 → ℤ → Option Bitmap64
unfolding mask
mask_at b (pos n) = some (mask b n)
mask_at b (negsuc n) =
    let words = append_words (1 - length b.bits) b.bits in
    if ltb (suc n) 64 then some (record b { bits = words }) else none

-- `Unmask` at an `int`.
unfoldable pub unmask_at : Bitmap64 → ℤ → Option Bitmap64
unfolding unmask
unmask_at b (pos n) = unmask b n
unmask_at b (negsuc n) = if ltb (suc n) 64 && ltb 0 (length b.bits) then some b else none

-- The inner loop of `FindNextAndSet`, over the offsets of word `i`, with the rounds that are left.
pub scan_word : Bitmap64 → ℕ → ℕ → ℕ → Option ℕ
scan_word b i zero j = none
scan_word b i (suc rounds) j =
    let rest = scan_word b i rounds (suc j) in
    if not (is_masked b (i * 64 + j)) then some (i * 64 + j) else rest

-- The outer loop, over the words from `i` on.
pub scan_words : Bitmap64 → ℕ → ℕ → Option ℕ
scan_words b zero i = none
scan_words b (suc rounds) i =
    let rest = scan_words b rounds (suc i) in
    let inner : Option ℕ = elim (scan_word b i 64 0) [ none ↦ rest | some idx ↦ some idx ] in
    if not (get_or b.bits i 0 == full_word) then inner else rest

-- `FindNextAndSet`
unfoldable pub find_next_and_set : Bitmap64 → Bitmap64 × ℕ
unfolding scan_words
find_next_and_set b =
    let past = 64 * length b.bits in
    elim (scan_words b (length b.bits) 0) [
      | none ↦ (mask b past, past)
      | some idx ↦ (mask b idx, idx)
    ]

-- `Bitmap64.Clear`
pub clear : Bitmap64 → Bitmap64
clear b = record { bits = [] }

pub record RrBitmap : Type 0 where
  pub bitmap : Bitmap64
  pub l : ℕ
  pub current : ℕ

-- `NewRRBitmap`
unfoldable pub new_rr : ℕ → RrBitmap
new_rr l = record { bitmap = no_bits; l = l; current = 0 }

-- The loop of `FindNextFromCurrentAndSet`, from `i` on, with the rounds that are left.
unfoldable pub rr_scan : RrBitmap → ℕ → ℕ → RrBitmap × ℤ
rr_scan r zero i = (r, negsuc 0)
rr_scan r (suc rounds) i =
    let rest = rr_scan r rounds (suc i) in
    let ii = if ltb i r.l then i else i - r.l in
    if not (is_masked r.bitmap ii)
    then (record r { bitmap = mask r.bitmap ii; current = suc ii }, pos ii)
    else rest

-- `FindNextFromCurrentAndSet`; -1 when every position is taken.
unfoldable pub find_next_from_current_and_set : RrBitmap → RrBitmap × ℤ
unfolding rr_scan
find_next_from_current_and_set r = rr_scan r r.l r.current

-- `RRBitmap.Clear`
pub rr_clear : RrBitmap → RrBitmap
unfolding clear
rr_clear r = record r { bitmap = clear r.bitmap; current = 0 }

-- `RRBitmap.Mask` and `RRBitmap.Unmask`
unfoldable pub rr_mask : RrBitmap → ℤ → Option RrBitmap
unfolding mask_at
rr_mask r p = elim (mask_at r.bitmap p) [ none ↦ none | some b ↦ some (record r { bitmap = b }) ]

unfoldable pub rr_unmask : RrBitmap → ℤ → Option RrBitmap
unfolding unmask_at
rr_unmask r p = elim (unmask_at r.bitmap p) [
  | none ↦ none
  | some b ↦ some (record r { bitmap = b })
]
