-- ===== src/Logs/Runs.antt =====
-- Runs of `GetLogs` that lose logs or stop the program.
use faas_share.Common.{String, Bool, true, false, [], ◌∷◌, ◌≡◌, refl}
use faas_share.Logs.{
  returned, collected, LogState, new_reader, add_pod, cancel, take_pod, stop, collect, send_closed,
  end_stream, here, next, Reach,
}

-- Two pods p and q of a function that are both listed: a call that does not follow may close the
-- channel `logs` when the stream of p is over, although q still waits in the channel `added` and
-- no log of it was read; the context has not ended.
pub Reach-lost :
    (p q : String)
    → (s : LogState) × Reach false s
      × (s.cancelled ≡ false)
      × (s.logs_closed ≡ true)
      × (s.pending ≡ q ∷ [])
      × (s.readers ≡ record { pod = p; active = false; phase = collected } ∷ [])
Reach-lost p q = (
  _,
  next
      (next
        (next (next (next here (add_pod p refl)) (add_pod q refl)) (take_pod p (q ∷ []) refl refl))
        (end_stream [] [] (new_reader p) refl refl refl))
      (collect [] [] (record { pod = p; active = false; phase = returned }) refl refl refl),
  refl,
  refl,
  refl,
  refl,
)

-- If the context ends while a pod is read, the goroutine of the pod may send its next line to the
-- closed channel `logs`, which stops the program.
pub Reach-crash :
    (follow : Bool) (p : String) → (s : LogState) × Reach follow s × (s.crashed ≡ true)
Reach-crash follow p = (
  _,
  next
      (next (next (next (next here (add_pod p refl)) (take_pod p [] refl refl)) cancel)
        (stop refl refl))
      (send_closed [] [] (new_reader p) refl refl refl),
  refl,
)
