-- ===== src/Logs/Finish.antt =====
-- A call of `GetLogs` that does not follow can always come to its end.
use faas_share.Common.{
  ℕ, zero, suc, ◌+◌, ◌-◌, ◌≤◌, ◌==◌, Bool, true, false, List, [], ◌∷◌, ◌++◌, All, ◌≡◌, ◌≢◌, ◌⊎◌,
  ◌∙◌, refl, ap, subst, inl, inr, arith, Bool-cases,
}
use faas_share.Logs.{
  Phase, waiting, returned, collected, Reader, LogState, is_last, Step, collect, end_stream, Steps,
  here, next, Reach,
}
use faas_share.Logs.Invariant.{
  is_waiting, counted, count_readers, Settled, Clean, All-at, Reach-Clean, Step-Clean,
}

Steps-append :
    {follow : Bool} {s t u : LogState} → Steps follow s t → Steps follow t u → Steps follow s u
Steps-append before here = before
Steps-append before (next after step) = next (Steps-append before after) step

Phase-cases : (p : Phase) → (p ≡ waiting) ⊎ ((p ≡ returned) ⊎ (p ≡ collected))
Phase-cases waiting = inl refl
Phase-cases returned = inr (inl refl)
Phase-cases collected = inr (inr refl)

-- The steps that a reader still needs.
abbrev effort : Phase → ℕ
effort waiting = 2
effort returned = 1
effort collected = 0

abbrev total_effort : List Reader → ℕ
total_effort [] = 0
total_effort (r ∷ rs) = effort r.phase + total_effort rs

total_effort-at :
    (xs ys : List Reader) (r : Reader)
    → total_effort (xs ++ r ∷ ys) ≡ total_effort xs + effort r.phase + total_effort ys
total_effort-at [] ys r = omega arith
total_effort-at (x ∷ xs) ys r = omega (arith, total_effort-at xs ys r)

Counted : List Reader → Type 0
Counted rs =
    (before : List Reader) × (after : List Reader) × (r : Reader) × (rs ≡ before ++ r ∷ after)
    × ((r.phase ≡ waiting) ⊎ (r.phase ≡ returned))

-- Where the count is not zero, there is a reader that waits or has returned.
count_readers-Counted : (rs : List Reader) → count_readers rs ≢ 0 → Counted rs
unfolding Counted
count_readers-Counted [] ne = absurd (ne refl)
count_readers-Counted (r ∷ rs) ne = elim (Phase-cases r.phase) [
  | inl e ↦ ([], rs, r, refl, inl e)
  | inr (inl e) ↦ ([], rs, r, refl, inr e)
  | inr (inr e) ↦
      let gone : counted r.phase ≡ 0 = ap counted e in
      let (before, after, q, split, phase) =
        count_readers-Counted rs (λ z. ne (omega (arith, gone, z))) in
      (r ∷ before, after, q, ap (λ l. r ∷ l) split, phase)
]

Finishes : LogState → Type 0
Finishes s = (t : LogState) × Steps false s t × (t.logs_closed ≡ true)

after_step : {s t : LogState} → Step false s t → Finishes t → Finishes s
unfolding Finishes
after_step step (u, steps, closed) = (u, Steps-append (next here step) steps, closed)

-- A call that goes on without an end of its context.
record Goes (s : LogState) : Type 0 where
  clean : Clean s
  live : s.cancelled ≡ false
  unclosed : s.logs_closed ≡ false
  watches : s.watching ≢ 0

abbrev Advanced : LogState → LogState → Type 0
Advanced s t =
    (t.logs_closed ≡ true) ⊎ (Goes t × (suc (total_effort t.readers) ≡ total_effort s.readers))

step-Clean : {s t : LogState} → Step false s t → Clean s → t.cancelled ≡ false → Clean t
step-Clean step clean live = elim (Step-Clean step clean) [
  | inl c ↦ absurd (cc (c, live))
  | inr kept ↦ kept
]

advance_waiting :
    (s : LogState) (before after : List Reader) (r : Reader)
    → Goes s
    → s.readers ≡ before ++ r ∷ after
    → r.phase ≡ waiting
    → (t : LogState) × Step false s t × Advanced s t
advance_waiting s before after r g split wait =
    let settled : r.active ≡ true =
      All-at Settled before after r (subst (All Settled) split g.clean.settled)
      ∙ ap is_waiting wait in
    let r' : Reader = record r { active = false; phase = returned } in
    let t : LogState = record s { readers = before ++ r' ∷ after } in
    let step : Step false s t = end_stream before after r split settled wait in
    let two : effort r.phase ≡ 2 = ap effort wait in
    let whole = ap total_effort split in
    let old = total_effort-at before after r in
    let new = total_effort-at before after r' in
    (
      t,
      step,
      inr (
        record {
          clean = step-Clean step g.clean g.live;
          live = g.live;
          unclosed = g.unclosed;
          watches = g.watches;
        },
        omega (arith, two, whole, old, new),
      ),
    )

advance_returned :
    (s : LogState) (before after : List Reader) (r : Reader)
    → Goes s
    → s.readers ≡ before ++ r ∷ after
    → r.phase ≡ returned
    → (t : LogState) × Step false s t × Advanced s t
advance_returned s before after r g split ret =
    let r' : Reader = record r { phase = collected } in
    let t : LogState = record s {
      watching = s.watching - 1;
      readers = before ++ r' ∷ after;
      logs_closed = is_last false (s.watching - 1);
    } in
    let step : Step false s t = collect before after r g.unclosed split ret in
    let one : effort r.phase ≡ 1 = ap effort ret in
    let whole = ap total_effort split in
    let old = total_effort-at before after r in
    let new = total_effort-at before after r' in
    (
      t,
      step,
      elim (Bool-cases (s.watching - 1 == 0)) [
        | inl last ↦ inl (rw last refl)
        | inr more ↦ inr (
          record {
            clean = step-Clean step g.clean g.live;
            live = g.live;
            unclosed = rw more refl;
            watches = λ z. absurd (ground (arith, more, z));
          },
          omega (arith, one, whole, old, new),
        )
      ],
    )

-- Some step brings the call nearer to its end.
advance : (s : LogState) → Goes s → (t : LogState) × Step false s t × Advanced s t
unfolding Counted
advance s g =
    let (before, after, r, split, phase) =
      count_readers-Counted s.readers (λ z. g.watches (g.clean.counts ∙ z)) in
    elim phase [
      | inl wait ↦ advance_waiting s before after r g split wait
      | inr ret ↦ advance_returned s before after r g split ret
    ]

-- By the steps that are left.
finish_within : (fuel : ℕ) (s : LogState) → Goes s → total_effort s.readers ≤ fuel → Finishes s
unfolding Finishes
finish_within zero s g enough =
    let (t, step, advanced) = advance s g in
    elim advanced [
      | inl closed ↦ (t, next here step, closed)
      | inr (on, less) ↦ absurd (omega (arith, less, enough))
    ]
finish_within (suc fuel) s g enough =
    let (t, step, advanced) = advance s g in
    elim advanced [
      | inl closed ↦ (t, next here step, closed)
      | inr (on, less) ↦ after_step step (finish_within fuel t on (omega (arith, less, enough)))
    ]

-- A call of `GetLogs` that does not follow is never stuck: from every state in which it still
-- watches a pod, and its context has not ended, some further steps close the channel `logs`.
pub Reach-finishes :
    (s : LogState)
    → Reach false s
    → s.cancelled ≡ false
    → s.logs_closed ≡ false
    → s.watching ≢ 0
    → (t : LogState) × Steps false s t × (t.logs_closed ≡ true)
unfolding Finishes
Reach-finishes s reach live unclosed watches = elim (Reach-Clean reach) [
  | inl c ↦ absurd (cc (c, live))
  | inr clean ↦
      finish_within (total_effort s.readers) s
        (record { clean = clean; live = live; unclosed = unclosed; watches = watches })
        (omega arith)
]
