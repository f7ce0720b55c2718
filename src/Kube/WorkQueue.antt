-- ===== src/Kube/WorkQueue.antt =====
-- The work queue of the client library, which every controller of the program has: an interface.
pub mod KeyList
use faas_share.Common.{String, ◌≡◌, ◌≢◌, ◌⊎◌}

-- `workqueue.RateLimitingInterface`. `Holds k q`: the queue will hand out `k` (once more), at once or
-- after its delay.
pub record WorkQueue : Type 1 where
  pub Queue : Type 0
  pub add : String → Queue → Queue
  pub add_rate_limited : String → Queue → Queue
  pub forget : String → Queue → Queue
  pub done : String → Queue → Queue
  pub get : String → Queue → Queue
  pub Holds : String → Queue → Type 0

-- What the library documents: a key that is added is handed out, also if it is added while a worker
-- has it, only `Get` takes it out, and only
-- `Add` and `AddRateLimited` put it in.
pub record WorkQueueLaws (w : WorkQueue) : Type 0 where
  pub holds_add : (k : String) (q : w.Queue) → w.Holds k (w.add k q)
  pub holds_add_rate_limited : (k : String) (q : w.Queue) → w.Holds k (w.add_rate_limited k q)
  pub add_keeps : (j k : String) (q : w.Queue) → w.Holds k q → w.Holds k (w.add j q)
  pub add_rate_limited_keeps :
      (j k : String) (q : w.Queue) → w.Holds k q → w.Holds k (w.add_rate_limited j q)
  pub forget_keeps : (j k : String) (q : w.Queue) → w.Holds k q → w.Holds k (w.forget j q)
  pub done_keeps : (j k : String) (q : w.Queue) → w.Holds k q → w.Holds k (w.done j q)
  pub get_keeps : (j k : String) (q : w.Queue) → j ≢ k → w.Holds k q → w.Holds k (w.get j q)
  pub add_only : (j k : String) (q : w.Queue) → w.Holds k (w.add j q) → (j ≡ k) ⊎ w.Holds k q
  pub add_rate_limited_only :
      (j k : String) (q : w.Queue) → w.Holds k (w.add_rate_limited j q) → (j ≡ k) ⊎ w.Holds k q
  pub forget_only : (j k : String) (q : w.Queue) → w.Holds k (w.forget j q) → w.Holds k q
  pub done_only : (j k : String) (q : w.Queue) → w.Holds k (w.done j q) → w.Holds k q
  pub get_only : (j k : String) (q : w.Queue) → w.Holds k (w.get j q) → w.Holds k q
