-- ===== src/Bitmap/RoundRobin.antt =====
-- The round-robin search of pkg/lib/bitmap/rrbitmap.go.
use faas_share.Common.{
  ℕ, zero, suc, ◌+◌, ◌-◌, ◌≤◌, ◌<◌, ◌≡◌, refl, inl, inr, true, false, ◌||◌, arith, ltb, ◌==◌,
  if◌then◌else◌, Bool-cases, ℤ, pos, negsuc,
}
use faas_share.Bitmap.{RrBitmap, is_masked, rr_scan, find_next_from_current_and_set}
use faas_share.Bitmap.Laws.{is_masked-mask}

-- The cursor is at most one past the last position.
abbrev pub IsValid : RrBitmap → Type 0
IsValid r = r.current ≤ r.l

-- What a search may answer. A position: it lies below `l`, it was free, exactly it is taken in
-- addition, and the cursor stands just behind it. Or -1: nothing changed, and no position is free.
abbrev pub Answer : RrBitmap → RrBitmap × ℤ → Type 0
Answer r (s, pos k) =
    (k < r.l)
    × (is_masked r.bitmap k ≡ false)
    × ((q : ℕ) → is_masked s.bitmap q ≡ ((k == q) || is_masked r.bitmap q))
    × (s.current ≡ suc k)
    × (s.l ≡ r.l)
Answer r (s, negsuc n) = (n ≡ 0) × (s ≡ r) × ((q : ℕ) → q < r.l → is_masked r.bitmap q ≡ true)

abbrev wrapped : RrBitmap → ℕ → ℕ
wrapped r i = if ltb i r.l then i else i - r.l

-- The positions that the loop has passed on its way to `i` are taken.
abbrev Passed : RrBitmap → ℕ → Type 0
Passed r i = (j : ℕ) → r.current ≤ j → j < i → is_masked r.bitmap (wrapped r j) ≡ true

all_taken :
    (r : RrBitmap)
    → IsValid r
    → Passed r (r.current + r.l)
    → (q : ℕ) → q < r.l
    → is_masked r.bitmap q ≡ true
all_taken r v passed q h = elim (Bool-cases (ltb q r.current)) [
  | inl before ↦
      let there = passed (q + r.l) (omega arith) (ground arith) in
      let back : wrapped r (q + r.l) ≡ q = ground arith in rw back at there
  | inr after ↦
      let there = passed q (ground arith) (omega arith) in
      let same : wrapped r q ≡ q = ground arith in rw same at there
]

pass_one :
    (r : RrBitmap) (i : ℕ) → is_masked r.bitmap (wrapped r i) ≡ true → Passed r i → Passed r (suc i)
pass_one r i h passed j l g = elim (Bool-cases (j == i)) [
  | inl e ↦ rw (let same : j ≡ i = ground arith in same) h
  | inr e ↦ passed j l (ground arith)
]

rr_scan-Answer :
    (r : RrBitmap) (rounds i : ℕ)
    → IsValid r
    → r.current ≤ i
    → i + rounds ≡ r.current + r.l
    → Passed r i
    → Answer r (rr_scan r rounds i)
unfolding rr_scan
rr_scan-Answer r zero i v l e passed =
    (refl, refl, all_taken r v (λ j h g. passed j h (omega arith)))
rr_scan-Answer r (suc rounds) i v l e passed =
    elim (Bool-cases (is_masked r.bitmap (wrapped r i))) [
      | inl taken ↦ rw taken (
          rr_scan-Answer r rounds (suc i) v (omega arith) (omega arith) (pass_one r i taken passed))
      | inr free ↦ rw free (ground arith, free, is_masked-mask r.bitmap (wrapped r i), refl, refl)
    ]

-- From any valid cursor the search ends, and gives an answer as described: a free position below
-- `l`, which it takes, or -1, which it gives only when all positions below `l` are taken.
pub find_next_from_current_and_set-Answer :
    (r : RrBitmap) → IsValid r → Answer r (find_next_from_current_and_set r)
unfolding find_next_from_current_and_set
find_next_from_current_and_set-Answer r v =
    rr_scan-Answer r r.l r.current v (omega arith) refl (λ j l h. absurd (omega arith))

pub Answer-IsValid : (r : RrBitmap) (a : RrBitmap × ℤ) → IsValid r → Answer r a → IsValid a.0
Answer-IsValid r (s, pos k) v (below, _, _, cursor, len) = rw (cursor, len) below
Answer-IsValid r (s, negsuc n) v (_, same, _) = rw same v

-- The search keeps the cursor valid.
pub find_next_from_current_and_set-IsValid :
    (r : RrBitmap) → IsValid r → IsValid (find_next_from_current_and_set r).0
find_next_from_current_and_set-IsValid r v =
    Answer-IsValid r (find_next_from_current_and_set r) v
      (find_next_from_current_and_set-Answer r v)
