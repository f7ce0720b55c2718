-- ===== src/GpuId/Returns.antt =====
-- `NewGPUID` returns, if every draw holds an index of a letter.

use Prim.Native.String.{count}
use text.Mathlib.TextLemmas.{length-cons, length-nil}
use faas_share.Common.{
  Nowhere, ℕ, zero, suc, ◌+◌, ◌*◌, ◌/◌, ◌%◌, ◌≤◌, ◌<◌, ◌==◌, ltb, String, false, some, get_or,
  Bool-cases, ◌≡◌, ◌⊎◌, ◌∙◌, refl, subst, inl, inr, arith,
}
use faas_share.GpuId.{letters, Loop, refill, use_index, gpuid_loop, new_gpuid}

-- One of the first r indices of the cache is that of a letter.
abbrev pub Lucky : ℕ → ℕ → Type 0
Lucky zero c = Nowhere
Lucky (suc r) c = (c % 32 < 26) ⊎ Lucky r (c / 32)

-- The rounds suffice for the state.
Suffices : ℕ → Loop → Type 0
Suffices rounds s =
    (s.remain + 12 * s.missing ≤ rounds)
    ⊎ (Lucky s.remain s.cache × (s.remain + 12 * s.missing ≤ rounds + 12))

positive : (n : ℕ) → (suc n == 0) ≡ false
positive n = ground arith

module _ (draws : ℕ → ℕ) (lucky : (j : ℕ) → Lucky 12 (draws j)) where
  -- A round with an index left.
  round-Suffices :
      (rounds m r c j : ℕ) (t : String)
      → Suffices
          (suc rounds)
          (record { missing = suc m; cache = c; remain = suc r; drawn = j; text = t })
      → Suffices rounds (
          use_index draws
            (record { missing = suc m; cache = c; remain = suc r; drawn = j; text = t }))
  unfolding Suffices use_index
  round-Suffices rounds m r c j t enough = elim (Bool-cases (ltb (c % 32) 26)) [
    | inl letter ↦ elim enough [
      | inl h ↦ rw (letter, use_index) (inl (omega (arith, h)))
      | inr (l, h) ↦ rw (letter, use_index) (inl (omega (arith, h)))
    ]
    | inr other ↦ elim enough [
      | inl h ↦ rw (other, use_index) (inl (omega (arith, h)))
      | inr (inl now, h) ↦ absurd (ground (arith, now, other))
      | inr (inr later, h) ↦
          rw (other, use_index)
            (inr (subst (λ x. Lucky x (c / 32)) (omega arith) later, omega (arith, h)))
    ]
  ]

  -- A round keeps the letters written and missing together.
  use_index-count :
      (m r c j : ℕ) (t : String)
      → count
            (use_index draws
              (record { missing = suc m; cache = c; remain = r; drawn = j; text = t })).text
          + (use_index draws
              (record { missing = suc m; cache = c; remain = r; drawn = j; text = t })).missing
        ≡ count t + suc m
  unfolding use_index
  use_index-count m r c j t = elim (Bool-cases (ltb (c % 32) 26)) [
    | inl letter ↦
        rw (letter, use_index)
          (let more = length-cons (get_or letters (c % 32) "a") t in omega (arith, more))
    | inr other ↦ rw (other, use_index) refl
  ]

  abbrev Returns : ℕ → Loop → Type 0
  Returns rounds s =
      (text : String) × (gpuid_loop draws rounds s ≡ some text)
      × (count text ≡ count s.text + s.missing)

  -- From a round on, if the later rounds return.
  round-Returns :
      (rounds m r c j : ℕ) (t : String)
      → ((s : Loop) → Suffices rounds s → Returns rounds s)
      → Suffices
          (suc rounds)
          (record { missing = suc m; cache = c; remain = suc r; drawn = j; text = t })
      → (text : String) × (gpuid_loop draws rounds (
            use_index draws
              (record { missing = suc m; cache = c; remain = suc r; drawn = j; text = t }))
          ≡ some text)
        × (count text ≡ count t + suc m)
  round-Returns rounds m r c j t later enough =
      let s : Loop = record { missing = suc m; cache = c; remain = suc r; drawn = j; text = t } in
      let (text, e, n) = later (use_index draws s) (round-Suffices rounds m r c j t enough) in
      (text, e, n ∙ use_index-count m (suc r) c j t)

  gpuid_loop-Returns :
      (rounds m r c j : ℕ) (t : String)
      → Suffices rounds (record { missing = m; cache = c; remain = r; drawn = j; text = t })
      → Returns rounds (record { missing = m; cache = c; remain = r; drawn = j; text = t })
  unfolding Suffices gpuid_loop refill
  gpuid_loop-Returns zero zero r c j t enough = (t, refl, omega arith)
  gpuid_loop-Returns zero (suc m) zero c j t (inl h) = absurd (omega (arith, h))
  gpuid_loop-Returns zero (suc m) (suc r) c j t (inl h) = absurd (omega (arith, h))
  gpuid_loop-Returns zero (suc m) zero c j t (inr (l, h)) = elim l [ ]
  gpuid_loop-Returns zero (suc m) (suc r) c j t (inr (l, h)) = absurd (omega (arith, h))
  gpuid_loop-Returns (suc rounds) zero r c j t enough = (t, refl, omega arith)
  gpuid_loop-Returns (suc rounds) (suc m) zero c j t (inr (l, h)) = elim l [ ]
  gpuid_loop-Returns (suc rounds) (suc m) zero c j t (inl h) =
      let (text, e, n) =
        round-Returns rounds m 11 (draws j) (suc j) t
          (λ s. gpuid_loop-Returns rounds s.missing s.remain s.cache s.drawn s.text)
          (inr (lucky j, omega (arith, h))) in
      (text, rw (positive m) e, n)
  gpuid_loop-Returns (suc rounds) (suc m) (suc r) c j t enough =
      let (text, e, n) =
        round-Returns rounds m r c j t
          (λ s. gpuid_loop-Returns rounds s.missing s.remain s.cache s.drawn s.text) enough in
      (text, rw (positive m, positive r, refill) e, n)

  -- If one of the twelve indices in each draw is that of a letter, `NewGPUID(n)` returns, within
  -- twelve rounds for each letter, and the identifier has n letters.
  pub new_gpuid-returns :
      (n rounds : ℕ)
      → 12 * n ≤ rounds
      → (text : String) × (new_gpuid draws rounds n ≡ some text) × (count text ≡ n)
  unfolding new_gpuid Suffices
  new_gpuid-returns n rounds enough =
      let (text, e, m) =
        gpuid_loop-Returns rounds n 12 (draws 0) 1 "" (inr (lucky 0, omega (arith, enough))) in
      (text, e, omega (arith, m, length-nil))
