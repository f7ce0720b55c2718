-- ===== src/Logs.antt =====
-- pkg/k8s/logs.go and log.go: the lines of a log, and the goroutines of `GetLogs` as a step
-- relation. The loop of `GetLogs` starts a `podLogs` for every pod; each of these has a goroutine
-- that reads the stream. `time.Parse` and the clock are parameters.
pub mod Lines
pub mod Invariant
pub mod Finish
pub mod Runs
pub mod Tests
use faas_share.Common.{
  ℕ, suc, ◌-◌, ◌==◌, String, Bool, true, false, not, ◌&&◌, Option, List, [], ◌∷◌, ◌++◌, ◌≡◌,
}

-- A `podLogs`: it waits for its stream or the context, has returned and waits for the loop to
-- take its answer from `finished`, or is through.
pub data Phase : Type 0 where
  waiting returned collected : Phase

-- `active`: the goroutine of the stream still reads, and sends the lines to `logs`.
pub record Reader : Type 0 where
  pub pod : String
  pub active : Bool
  pub phase : Phase

-- `added` and `logs` are channels: `pending` is what `added` holds, and the two flags say whether
-- the channels are closed. `crashed` is a send on a closed channel, which stops the program.
pub record LogState : Type 0 where
  pub cancelled : Bool
  pub pending : List String
  pub added_closed : Bool
  pub watching : ℕ
  pub readers : List Reader
  pub logs_closed : Bool
  pub crashed : Bool

abbrev pub start_logs : LogState
start_logs = record {
  cancelled = false;
  pending = [];
  added_closed = false;
  watching = 0;
  readers = [];
  logs_closed = false;
  crashed = false;
}

abbrev pub new_reader : String → Reader
new_reader pod = record { pod = pod; active = true; phase = waiting }

-- Whether the loop returns after `finished`, from what is still watched.
abbrev pub is_last : Bool → ℕ → Bool
is_last follow n = (n == 0) && not follow

-- One step of some goroutine. A full channel only delays a send.
pub data Step (follow : Bool) (s : LogState) : LogState → Type 0 where
  -- `OnAdd` of the informer.
  add_pod :
      (pod : String)
      → s.added_closed ≡ false
      → Step follow s (record s { pending = s.pending ++ pod ∷ [] })
  add_closed : (pod : String) → s.added_closed ≡ true → Step follow s (record s { crashed = true })
  -- The context ends, and `added` is closed after that.
  cancel : Step follow s (record s { cancelled = true })
  close_added : s.cancelled ≡ true → Step follow s (record s { added_closed = true })
  -- The three cases of the `select` in the loop; a closed `added` gives an empty name.
  take_pod :
      (pod : String) (rest : List String)
      → s.logs_closed ≡ false
      → s.pending ≡ pod ∷ rest
      → Step follow s (record s {
        pending = rest;
        watching = suc s.watching;
        readers = new_reader pod ∷ s.readers;
      })
  take_empty :
      s.logs_closed ≡ false
      → s.pending ≡ []
      → s.added_closed ≡ true
      → Step follow s (record s { watching = suc s.watching; readers = new_reader "" ∷ s.readers })
  stop :
      s.logs_closed ≡ false → s.cancelled ≡ true → Step follow s (record s { logs_closed = true })
  collect :
      (before after : List Reader) (r : Reader)
      → s.logs_closed ≡ false
      → s.readers ≡ before ++ r ∷ after
      → r.phase ≡ returned
      → Step follow s (record s {
        watching = s.watching - 1;
        readers = before ++ record r { phase = collected } ∷ after;
        logs_closed = is_last follow (s.watching - 1);
      })
  -- A line of a pod.
  send_line :
      (before after : List Reader) (r : Reader)
      → s.readers ≡ before ++ r ∷ after
      → r.active ≡ true
      → s.logs_closed ≡ false
      → Step follow s s
  send_closed :
      (before after : List Reader) (r : Reader)
      → s.readers ≡ before ++ r ∷ after
      → r.active ≡ true
      → s.logs_closed ≡ true
      → Step follow s (record s { crashed = true })
  -- The stream ends or fails, and `podLogs` returns with it.
  end_stream :
      (before after : List Reader) (r : Reader)
      → s.readers ≡ before ++ r ∷ after
      → r.active ≡ true
      → r.phase ≡ waiting
      → Step follow s
          (record s { readers = before ++ record r { active = false; phase = returned } ∷ after })
  -- `podLogs` returns since the context has ended; the goroutine of the stream goes on.
  abandon :
      (before after : List Reader) (r : Reader)
      → s.readers ≡ before ++ r ∷ after
      → r.phase ≡ waiting
      → s.cancelled ≡ true
      → Step follow s (record s { readers = before ++ record r { phase = returned } ∷ after })
  -- The goroutine of an abandoned stream comes to its end.
  end_abandoned :
      (before after : List Reader) (r : Reader)
      → s.readers ≡ before ++ r ∷ after
      → r.active ≡ true
      → s.cancelled ≡ true
      → Step follow s (record s { readers = before ++ record r { active = false } ∷ after })

pub data Steps (follow : Bool) (s : LogState) : LogState → Type 0 where
  here : Steps follow s s
  next : {t u : LogState} → Steps follow s t → Step follow t u → Steps follow s u

-- The states of a call of `GetLogs`.
abbrev pub Reach : Bool → LogState → Type 0
Reach follow s = Steps follow start_logs s
