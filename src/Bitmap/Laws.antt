-- ===== src/Bitmap/Laws.antt =====
-- How masking, unmasking and searching change what `IsMasked` reports.
use Prim.Native.Nat.{bit_and, bit_or, bit_xor}
use faas_share.Common.{
  ℕ, zero, suc, ◌+◌, ◌-◌, ◌*◌, ◌/◌, ◌%◌, ◌^◌, ◌≤◌, ◌<◌, ◌≡◌, refl, subst, subst₂, ◌∙◌, inl, inr,
  ◌&&◌, true, false, ◌||◌, not, Option, none, some, List, [], ◌∷◌, ◌++◌, arith, ltb, ◌==◌, ==_iff,
  if◌then◌else◌, length, get_or, Bool-cases, length-append, get_or-set_self, get_or-set_ne,
}
use faas_share.Bitmap.{
  Bitmap64, full_word, is_masked, append_words, mask, unmask, scan_word, scan_words,
  find_next_and_set,
}
use faas_share.Bitmap.Bits.{
  bit, bit-or, bit-and, bit-xor, bit-pow, and-pow-ne_zero, bit-full, bit-zero, bit-le,
}

length-append_words : (k : ℕ) (xs : List ℕ) → length (append_words k xs) ≡ length xs + k
unfolding append_words
length-append_words zero xs = omega arith
length-append_words (suc k) xs =
    omega (arith, length-append_words k (xs ++ 0 ∷ []), length-append xs (0 ∷ []))

get_or-past : (xs : List ℕ) (i : ℕ) → length xs ≤ i → get_or xs i 0 ≡ 0
get_or-past [] i h = refl
get_or-past (x ∷ xs) zero h = absurd (omega arith)
get_or-past (x ∷ xs) (suc i) h = get_or-past xs i (omega arith)

get_or-snoc_zero : (xs : List ℕ) (i : ℕ) → get_or (xs ++ 0 ∷ []) i 0 ≡ get_or xs i 0
get_or-snoc_zero [] zero = refl
get_or-snoc_zero [] (suc i) = refl
get_or-snoc_zero (x ∷ xs) zero = refl
get_or-snoc_zero (x ∷ xs) (suc i) = get_or-snoc_zero xs i

get_or-append_words : (k : ℕ) (xs : List ℕ) (i : ℕ) → get_or (append_words k xs) i 0 ≡ get_or xs i 0
unfolding append_words
get_or-append_words zero xs i = refl
get_or-append_words (suc k) xs i = get_or-append_words k (xs ++ 0 ∷ []) i ∙ get_or-snoc_zero xs i

-- `IsMasked` reads one bit of one word, and words that are not there count as zero.
pub is_masked-bit :
    (b : Bitmap64) (q : ℕ) → is_masked b q ≡ not (bit (q % 64) (get_or b.bits (q / 64) 0) == 0)
unfolding is_masked
is_masked-bit b q =
    rw (and-pow-ne_zero (q % 64) (get_or b.bits (q / 64) 0))
      (ground (arith, get_or-past b.bits (q / 64), bit-zero (q % 64)))

same_place : (p q : ℕ) → p / 64 ≡ q / 64 → p % 64 ≡ q % 64 → p ≡ q
same_place p q h g = omega arith

get_or-mask :
    (b : Bitmap64) (p i : ℕ)
    → get_or (mask b p).bits i 0
      ≡ (if p / 64 == i then bit_or (get_or b.bits i 0) (2 ^ (p % 64)) else get_or b.bits i 0)
unfolding mask
get_or-mask b p i =
    let words = append_words (suc (p / 64) - length b.bits) b.bits in
    let word = bit_or (get_or words (p / 64) 0) (2 ^ (p % 64)) in
    ground (
      arith,
      length-append_words (suc (p / 64) - length b.bits) b.bits,
      get_or-append_words (suc (p / 64) - length b.bits) b.bits i,
      get_or-set_self words (p / 64) word 0,
      get_or-set_ne words (p / 64) i word 0,
    )

-- After `Mask(p)`, `IsMasked` holds of `p` and of what it held of before, and of nothing else.
pub is_masked-mask : (b : Bitmap64) (p q : ℕ) → is_masked (mask b p) q ≡ ((p == q) || is_masked b q)
is_masked-mask b p q =
    is_masked-bit (mask b p) q
    ∙ rw (get_or-mask b p (q / 64), is_masked-bit b q)
        (ground (
          arith,
          bit-or (q % 64) (get_or b.bits (q / 64) 0) (2 ^ (p % 64)),
          bit-pow (p % 64) (q % 64),
          bit-le (q % 64) (get_or b.bits (q / 64) 0),
        ))

get_or-clear :
    (b c : Bitmap64) (p i : ℕ)
    → unmask b p ≡ some c
    → get_or c.bits i 0 ≡ (
        if p / 64 == i
        then bit_and (get_or b.bits i 0) (bit_xor full_word (2 ^ (p % 64)))
        else get_or b.bits i 0)
unfolding unmask
get_or-clear b c p i e =
    let word = bit_and (get_or b.bits (p / 64) 0) (bit_xor full_word (2 ^ (p % 64))) in
    ground (arith, get_or-set_self b.bits (p / 64) word 0, get_or-set_ne b.bits (p / 64) i word 0)

-- `Unmask(p)` on a word that exists frees `p`, and leaves every other position as it was.
pub is_masked-unmask :
    (b c : Bitmap64) (p q : ℕ)
    → unmask b p ≡ some c
    → is_masked c q ≡ (not (p == q) && is_masked b q)
is_masked-unmask b c p q e =
    is_masked-bit c q
    ∙ rw (get_or-clear b c p (q / 64) e, is_masked-bit b q)
        (ground (
          arith,
          bit-and (q % 64) (get_or b.bits (q / 64) 0) (bit_xor full_word (2 ^ (p % 64))),
          bit-xor (q % 64) full_word (2 ^ (p % 64)),
          bit-pow (p % 64) (q % 64),
          bit-full (q % 64) (omega arith),
          bit-le (q % 64) (get_or b.bits (q / 64) 0),
        ))

-- Every position from `lo` up to `hi` is taken.
abbrev pub Taken : Bitmap64 → ℕ → ℕ → Type 0
Taken b lo hi = (q : ℕ) → lo ≤ q → q < hi → is_masked b q ≡ true

-- What a search of the positions from `lo` up to `hi` may answer: the first free one, or none.
abbrev pub Scan : Bitmap64 → ℕ → ℕ → Option ℕ → Type 0
Scan b lo hi none = Taken b lo hi
Scan b lo hi (some r) = (lo ≤ r) × (r < hi) × (is_masked b r ≡ false) × Taken b lo r

Taken-join : (b : Bitmap64) (lo mid hi : ℕ) → Taken b lo mid → Taken b mid hi → Taken b lo hi
Taken-join b lo mid hi t u q l h = elim (Bool-cases (ltb q mid)) [
  | inl e ↦ t q l (ground arith)
  | inr e ↦ u q (ground arith) h
]

Scan-join :
    (b : Bitmap64) (lo mid hi : ℕ) (o : Option ℕ)
    → lo ≤ mid
    → Taken b lo mid
    → Scan b mid hi o
    → Scan b lo hi o
Scan-join b lo mid hi none l t s = Taken-join b lo mid hi t s
Scan-join b lo mid hi (some r) l t (from, below, free, rest) =
    (omega arith, below, free, Taken-join b lo mid r t rest)

Taken-one : (b : Bitmap64) (lo : ℕ) → is_masked b lo ≡ true → Taken b lo (suc lo)
Taken-one b lo h q l g = rw (let e : q ≡ lo = omega arith in e) h

scan_word-Scan :
    (b : Bitmap64) (i rounds j : ℕ)
    → Scan b (i * 64 + j) (i * 64 + j + rounds) (scan_word b i rounds j)
unfolding scan_word
scan_word-Scan b i zero j = λ q l h. absurd (omega arith)
scan_word-Scan b i (suc rounds) j = elim (Bool-cases (is_masked b (i * 64 + j))) [
  | inl taken ↦ rw taken (
      subst (λ hi. Scan b (i * 64 + j) hi (scan_word b i rounds (suc j))) (omega arith)
        (Scan-join b (i * 64 + j) (i * 64 + suc j) (i * 64 + suc j + rounds)
          (scan_word b i rounds (suc j)) (omega arith)
          (subst (Taken b (i * 64 + j)) (omega arith) (Taken-one b (i * 64 + j) taken))
          (scan_word-Scan b i rounds (suc j))))
  | inr free ↦ rw free (omega arith, omega arith, free, λ q l h. absurd (omega arith))
]

Taken-full : (b : Bitmap64) (i : ℕ) → get_or b.bits i 0 ≡ full_word → Taken b (i * 64) (i * 64 + 64)
Taken-full b i h q l g =
    is_masked-bit b q
    ∙ rw (let e : q / 64 ≡ i = omega arith in e, h, bit-full (q % 64) (omega arith)) refl

-- What follows the search of one word: its hit, or the search of the rest.
Scan-or :
    (b : Bitmap64) (lo mid hi : ℕ) (o rest : Option ℕ)
    → lo ≤ mid
    → mid ≤ hi
    → Scan b lo mid o
    → Scan b mid hi rest
    → Scan b lo hi (elim o [ none ↦ rest | some idx ↦ some idx ])
Scan-or b lo mid hi none rest l h s t = Scan-join b lo mid hi rest l s t
Scan-or b lo mid hi (some r) rest l h (from, below, free, taken) t =
    (from, omega arith, free, taken)

scan_words-Scan :
    (b : Bitmap64) (rounds i : ℕ) → Scan b (i * 64) ((i + rounds) * 64) (scan_words b rounds i)
unfolding scan_words
scan_words-Scan b zero i = λ q l h. absurd (omega arith)
scan_words-Scan b (suc rounds) i =
    let hi = (i + suc rounds) * 64 in
    let rest : Scan b (i * 64 + 64) hi (scan_words b rounds (suc i)) =
      subst₂ (λ lo h. Scan b lo h (scan_words b rounds (suc i))) (omega arith) (omega arith)
        (scan_words-Scan b rounds (suc i)) in
    elim (Bool-cases (get_or b.bits i 0 == full_word)) [
      | inl full ↦ rw full (
          Scan-join b (i * 64) (i * 64 + 64) hi (scan_words b rounds (suc i)) (omega arith)
            (Taken-full b i ((==_iff _ _).0 full)) rest)
      | inr free ↦ rw free (
          Scan-or b (i * 64) (i * 64 + 64) hi (scan_word b i 64 0) (scan_words b rounds (suc i))
            (omega arith) (omega arith)
            (subst (λ lo. Scan b lo (lo + 64) (scan_word b i 64 0)) (omega arith)
              (scan_word-Scan b i 64 0))
            rest)
    ]

pub is_masked-past : (b : Bitmap64) (q : ℕ) → 64 * length b.bits ≤ q → is_masked b q ≡ false
unfolding is_masked
is_masked-past b q h = ground arith

find_next-of_Scan :
    (b : Bitmap64) (o : Option ℕ)
    → Scan b 0 (length b.bits * 64) o
    → let found = elim o as (λ _. Bitmap64 × ℕ) [
      | none ↦ (mask b (64 * length b.bits), 64 * length b.bits)
      | some idx ↦ (mask b idx, idx)
    ] in
      (is_masked b found.1 ≡ false) × Taken b 0 found.1 × (found.0 ≡ mask b found.1)
find_next-of_Scan b none t = (is_masked-past b _ (omega arith), λ q l h. t q l (omega arith), refl)
find_next-of_Scan b (some r) (from, below, free, taken) = (free, taken, refl)

-- `FindNextAndSet` answers the lowest free position, and takes it: the position was free, every
-- position below it was taken, and afterwards exactly that one more is taken.
pub find_next_and_set-lowest :
    (b : Bitmap64)
    → let (c, r) = find_next_and_set b in
      (is_masked b r ≡ false)
      × Taken b 0 r
      × ((q : ℕ) → is_masked c q ≡ ((r == q) || is_masked b q))
unfolding find_next_and_set
find_next_and_set-lowest b =
    let (free, taken, set_it) = find_next-of_Scan b (scan_words b (length b.bits) 0) (
      subst (λ hi. Scan b 0 hi (scan_words b (length b.bits) 0)) (omega arith)
        (scan_words-Scan b (length b.bits) 0)) in
    (free, taken, λ q. rw set_it (is_masked-mask b _ q))
