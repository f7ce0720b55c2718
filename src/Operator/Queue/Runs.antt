-- ===== src/Operator/Queue/Runs.antt =====
-- Which keys the operator works on over a run.
use faas_share.Common.{
  String, Bool, true, false, List, [], ◌∷◌, In, any, ◌≡◌, ◌⊎◌, inl, inr, Bool-cases, arith,
}
use faas_share.Kube.WorkQueue.{WorkQueue, WorkQueueLaws}
use faas_share.Operator.Deployment.{Json}
use faas_share.Operator.Sync.{Api}
use faas_share.Operator.Queue.{OperatorEvent, worked, step, run}
use faas_share.Operator.Queue.Steps.{reports, step-only, step-adds, step-keeps}

-- Some worker among the events has the key.
abbrev pub Worked : String → List OperatorEvent → Type 0
Worked k es = (api : Api) × In (worked api k) es

module _ (json : Json) (b : Bool) (w : WorkQueue) (laws : WorkQueueLaws w) (k : String) where
  run-keeps :
      (es : List OperatorEvent) (q : w.Queue)
      → w.Holds k q
      → w.Holds k (run json b w es q) ⊎ Worked k es
  unfolding run
  run-keeps [] q h = inl h
  run-keeps (e ∷ es) q h = elim (step-keeps json b w laws k e q h) [
    | inr (api, is) ↦ inr (api, inl is)
    | inl held ↦ elim (run-keeps es (step json b w e q) held) [
      | inl still ↦ inl still
      | inr (api, there) ↦ inr (api, inr there)
    ]
  ]

  run-adds :
      (es : List OperatorEvent) (q : w.Queue)
      → any (reports k) es ≡ true
      → w.Holds k (run json b w es q) ⊎ Worked k es
  unfolding run
  run-adds [] q is = absurd (ground arith)
  run-adds (e ∷ es) q is =
      let later : w.Holds k (run json b w es (step json b w e q)) ⊎ Worked k es =
        elim (Bool-cases (reports k e)) [
          | inl now ↦ run-keeps es (step json b w e q) (step-adds json b w laws k e q now)
          | inr other ↦ run-adds es (step json b w e q) (ground arith)
        ] in
      elim later [ inl held ↦ inl held | inr (api, there) ↦ inr (api, inr there) ]

  run-only :
      (es : List OperatorEvent) (q : w.Queue)
      → any (reports k) es ≡ false
      → w.Holds k (run json b w es q)
      → w.Holds k q
  unfolding run
  run-only [] q other held = held
  run-only (e ∷ es) q other held = elim (Bool-cases (reports k e)) [
    | inl now ↦ absurd (ground arith)
    | inr silent ↦
        step-only json b w laws k e q silent (run-only es (step json b w e q) (ground arith) held)
  ]

  -- The client library's queue does what it documents. Take any run of the operator. If an informer
  -- reports a SharePod in it, as added or as changed, its key is in the queue afterwards or some
  -- worker has had it. If none does, a key that was not in the queue is not in it afterwards,
  -- whatever the workers met: a key is not tried again after an error of `syncHandler`.
  pub run-reported :
      (es : List OperatorEvent) (q : w.Queue)
      → ((any (reports k) es ≡ true) × (w.Holds k (run json b w es q) ⊎ Worked k es))
        ⊎ ((any (reports k) es ≡ false) × ¬ (w.Holds k (run json b w es q) × ¬ w.Holds k q))
  run-reported es q = elim (Bool-cases (any (reports k) es)) [
    | inl is ↦ inl (is, run-adds es q is)
    | inr silent ↦ inr (silent, λ (after, before). before (run-only es q silent after))
  ]
