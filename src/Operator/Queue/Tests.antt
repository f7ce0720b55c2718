-- ===== src/Operator/Queue/Tests.antt =====
-- A run in which the lister fails.
use faas_share.Common.{String, true, false, none, some, List, [], ◌∷◌, In, any, ◌≡◌, ◌⊎◌, refl}
use faas_share.Kube.{not_found, failed}
use faas_share.Kube.WorkQueue.KeyList.{keys, keys-WorkQueueLaws}
use faas_share.Operator.Deployment.{Json}
use faas_share.Operator.Sync.{Api, created}
use faas_share.Operator.Queue.{OperatorEvent, share_pod_added, worked, run}
use faas_share.Operator.Queue.Steps.{reports}
use faas_share.Operator.Queue.Runs.{Worked, run-reported}

abbrev json : Json
json = record { marshal = λ s. none; unmarshal = λ t. none; same = λ a b. true }

abbrev failing : Api
failing = record {
  split_key = λ k. some ("fn", k);
  get_share_pod = λ ns n. failed;
  get_deployment = λ ns n. not_found;
  create_deployment = λ d. some d;
  update_accepted = λ d. true;
  get_service = λ ns n. not_found;
  create_service = λ s. created;
}

abbrev empty : List String
empty = []

abbrev events : List OperatorEvent
events = share_pod_added (some "a") ∷ worked failing "a" ∷ []

run-reported_example :
    ((any (reports "a") events ≡ true)
      × (In "a" (run json true keys events empty) ⊎ Worked "a" events))
    ⊎ ((any (reports "a") events ≡ false)
        × ¬ (In "a" (run json true keys events empty) × ¬ In "a" empty))
run-reported_example = run-reported json true keys keys-WorkQueueLaws "a" events empty

-- The key that failed is gone.
lost : run json true keys events empty ≡ []
unfolding run
lost = refl
