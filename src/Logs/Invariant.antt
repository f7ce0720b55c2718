-- ===== src/Logs/Invariant.antt =====
-- Without an end of the context, no goroutine sends on a closed channel.
use faas_share.Common.{
  ℕ, ◌+◌, Bool, true, false, List, [], ◌∷◌, ◌++◌, All, ◌≡◌, ◌≢◌, ◌⊎◌, ◌∙◌, refl, sym, ap, subst,
  inl, inr, Bool-cases, arith,
}
use faas_share.Logs.{
  Phase, waiting, returned, collected, Reader, LogState, start_logs, Step, add_pod, add_closed,
  cancel, close_added, take_pod, take_empty, stop, collect, send_line, send_closed, end_stream,
  abandon, end_abandoned, here, next, Reach,
}

abbrev pub is_waiting : Phase → Bool
is_waiting waiting = true
is_waiting returned = false
is_waiting collected = false

-- A reader that the loop still counts.
abbrev pub counted : Phase → ℕ
counted waiting = 1
counted returned = 1
counted collected = 0

abbrev pub count_readers : List Reader → ℕ
count_readers [] = 0
count_readers (r ∷ rs) = counted r.phase + count_readers rs

abbrev pub Settled : Reader → Type 0
Settled r = r.active ≡ is_waiting r.phase

pub record Clean (s : LogState) : Type 0 where
  pub safe : s.crashed ≡ false
  pub unclosed : s.added_closed ≡ false
  pub counts : s.watching ≡ count_readers s.readers
  pub settled : All Settled s.readers
  pub over : s.logs_closed ≡ true → s.watching ≡ 0

count_readers-append :
    (xs ys : List Reader) → count_readers (xs ++ ys) ≡ count_readers xs + count_readers ys
count_readers-append [] ys = omega arith
count_readers-append (x ∷ xs) ys = omega (arith, count_readers-append xs ys)

module _ {ℓ κ} {A : Type ℓ} (P : A → Type κ) where
  pub All-at : (xs ys : List A) (x : A) → All P (xs ++ x ∷ ys) → P x
  All-at [] ys x h = h.0
  All-at (z ∷ xs) ys x h = All-at xs ys x h.1

  All-replace : (xs ys : List A) (x y : A) → All P (xs ++ x ∷ ys) → P y → All P (xs ++ y ∷ ys)
  All-replace [] ys x y h p = (p, h.1)
  All-replace (z ∷ xs) ys x y h p = (h.0, All-replace xs ys x y h.1 p)

start_logs-Clean : Clean start_logs
start_logs-Clean = record {
  safe = refl;
  unclosed = refl;
  counts = refl;
  settled = tt;
  over = λ e. refl;
}

counted-waiting : (p : Phase) → is_waiting p ≡ true → counted p ≡ 1
counted-waiting waiting e = refl
counted-waiting returned e = absurd (cc e)
counted-waiting collected e = absurd (cc e)

-- The count with one reader taken apart.
count_readers-at :
    (xs ys : List Reader) (r : Reader)
    → count_readers (xs ++ r ∷ ys) ≡ count_readers xs + counted r.phase + count_readers ys
count_readers-at xs ys r = let split = count_readers-append xs (r ∷ ys) in omega (arith, split)

-- A reader that still reads is counted, so that `logs` is open.
reading-counted :
    (xs ys : List Reader) (r : Reader)
    → All Settled (xs ++ r ∷ ys)
    → r.active ≡ true
    → count_readers (xs ++ r ∷ ys) ≢ 0
reading-counted xs ys r settled reads none =
    let waits : is_waiting r.phase ≡ true = sym (All-at Settled xs ys r settled) ∙ reads in
    let one = counted-waiting r.phase waits in
    let split = count_readers-at xs ys r in absurd (omega (arith, one, split, none))

pub Step-Clean :
    {follow : Bool} {s t : LogState} → Step follow s t → Clean s → (t.cancelled ≡ true) ⊎ Clean t
Step-Clean {s = s} (add_pod pod is_open) clean = inr (record {
  safe = clean.safe;
  unclosed = clean.unclosed;
  counts = clean.counts;
  settled = clean.settled;
  over = clean.over;
})
Step-Clean {s = s} (add_closed pod closed) clean = absurd (cc (closed, clean.unclosed))
Step-Clean cancel clean = inl refl
Step-Clean (close_added c) clean = inl c
Step-Clean {s = s} (take_pod pod rest is_open e) clean = inr (record {
  safe = clean.safe;
  unclosed = clean.unclosed;
  counts = let counts = clean.counts in omega (arith, counts);
  settled = (refl, clean.settled);
  over = λ closed. absurd (cc (is_open, closed));
})
Step-Clean (take_empty is_open e closed) clean = absurd (cc (closed, clean.unclosed))
Step-Clean (stop is_open c) clean = inl c
Step-Clean {follow} {s} (collect before after r is_open e ret) clean = inr (record {
  safe = clean.safe;
  unclosed = clean.unclosed;
  counts =
      let one : counted r.phase ≡ 1 = ap counted ret in
      let whole = clean.counts ∙ ap count_readers e in
      let old = count_readers-at before after r in
      let new = count_readers-at before after (record r { phase = collected }) in
      omega (arith, one, whole, old, new);
  settled =
      let all = subst (All Settled) e clean.settled in
      let settled : r.active ≡ false = All-at Settled before after r all ∙ ap is_waiting ret in
      All-replace Settled before after r (record r { phase = collected }) all settled;
  over = λ closed. ground (arith, closed);
})
Step-Clean (send_line before after r e reads is_open) clean = inr clean
Step-Clean {s = s} (send_closed before after r e reads closed) clean = absurd (
    reading-counted before after r (subst (All Settled) e clean.settled) reads
      (ap count_readers (sym e) ∙ sym clean.counts ∙ clean.over closed))
Step-Clean {s = s} (end_stream before after r e reads wait) clean = inr (record {
  safe = clean.safe;
  unclosed = clean.unclosed;
  counts =
      let one : counted r.phase ≡ 1 = ap counted wait in
      let whole = clean.counts ∙ ap count_readers e in
      let old = count_readers-at before after r in
      let new = count_readers-at before after (record r { active = false; phase = returned }) in
      omega (arith, one, whole, old, new);
  settled =
      All-replace Settled before after r (record r { active = false; phase = returned })
        (subst (All Settled) e clean.settled) refl;
  over = clean.over;
})
Step-Clean (abandon before after r e wait c) clean = inl c
Step-Clean (end_abandoned before after r e reads c) clean = inl c

Step-cancelled :
    {follow : Bool} {s t : LogState} → Step follow s t → s.cancelled ≡ true → t.cancelled ≡ true
Step-cancelled (add_pod pod unclosed) c = c
Step-cancelled (add_closed pod closed) c = c
Step-cancelled cancel c = refl
Step-cancelled (close_added d) c = c
Step-cancelled (take_pod pod rest unclosed e) c = c
Step-cancelled (take_empty unclosed e closed) c = c
Step-cancelled (stop unclosed d) c = c
Step-cancelled (collect before after r unclosed e ret) c = c
Step-cancelled (send_line before after r e reads unclosed) c = c
Step-cancelled (send_closed before after r e reads closed) c = c
Step-cancelled (end_stream before after r e reads wait) c = c
Step-cancelled (abandon before after r e wait d) c = c
Step-cancelled (end_abandoned before after r e reads d) c = c

pub Reach-Clean : {follow : Bool} {s : LogState} → Reach follow s → (s.cancelled ≡ true) ⊎ Clean s
Reach-Clean here = inr start_logs-Clean
Reach-Clean (next before step) = elim (Reach-Clean before) [
  | inl c ↦ inl (Step-cancelled step c)
  | inr clean ↦ Step-Clean step clean
]

-- As long as its context does not end, a call of `GetLogs` never sends on a closed channel,
-- however its goroutines are interleaved; and when its channel `logs` is closed, every `podLogs`
-- that it has started has ended and has been counted.
pub Reach-safe :
    {follow : Bool} {s : LogState}
    → Reach follow s
    → s.cancelled ≡ false
    → (s.crashed ≡ false) × ((s.logs_closed ≡ false) ⊎ (count_readers s.readers ≡ 0))
Reach-safe {s = s} reach live = elim (Reach-Clean reach) [
  | inl c ↦ absurd (cc (c, live))
  | inr clean ↦ (
    clean.safe,
    elim (Bool-cases s.logs_closed) [
      | inl closed ↦ inr (sym clean.counts ∙ clean.over closed)
      | inr unclosed ↦ inl unclosed
    ],
  )
]
