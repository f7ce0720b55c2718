-- ===== src/Logs/Tests.antt =====
-- Calls of `GetLogs` with one pod, and a line.
use faas_share.Common.{
  ℕ, String, true, false, some, Option, [], ◌∷◌, count_char, ◌≡◌, ◌⊎◌, refl, arith,
}
use faas_share.Logs.{LogState, start_logs, new_reader, add_pod, take_pod, Steps, here, next, Reach}
use faas_share.Logs.Lines.{log_of, log_of-line}
use faas_share.Logs.Invariant.{count_readers, Reach-safe}
use faas_share.Logs.Finish.{Reach-finishes}
use faas_share.Logs.Runs.{Reach-lost, Reach-crash}
use faas_share.Logs.{collected}

abbrev reading : LogState
reading = record start_logs { watching = 1; readers = new_reader "fn-1" ∷ [] }

reading-Reach : Reach false reading
reading-Reach = next (next here (add_pod "fn-1" refl)) (take_pod "fn-1" [] refl refl)

Reach-safe_example : (false ≡ false) × ((false ≡ false) ⊎ (count_readers reading.readers ≡ 0))
Reach-safe_example = Reach-safe reading-Reach refl

Reach-finishes_example : (t : LogState) × Steps false reading t × (t.logs_closed ≡ true)
Reach-finishes_example =
    Reach-finishes reading reading-Reach refl refl (λ e. absurd (ground (arith, e)))

Reach-lost_example :
    (s : LogState) × Reach false s
    × (s.cancelled ≡ false)
    × (s.logs_closed ≡ true)
    × (s.pending ≡ "fn-2" ∷ [])
    × (s.readers ≡ record { pod = "fn-1"; active = false; phase = collected } ∷ [])
Reach-lost_example = Reach-lost "fn-1" "fn-2"

Reach-crash_example : (s : LogState) × Reach true s × (s.crashed ≡ true)
Reach-crash_example = Reach-crash true "fn-1"

abbrev times : String → Option ℕ
times s = some 7

log_of-line_example : log_of 0 times "fn-1" "fn" "2021-01-01T00:00:00Z two words" ≡ record {
  text = "two words";
  namespace = "";
  pod_name = "fn-1";
  function_name = "fn";
  timestamp = 7;
}
unfolding count_char
log_of-line_example =
    log_of-line 0 times "2021-01-01T00:00:00Z" "two words" "fn-1" "fn" 7 refl refl refl
