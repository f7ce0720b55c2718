-- ===== src/DeviceManager/Config/Laws.antt =====
-- What the end of a node's heartbeats leaves.
use faas_share.Common.{
  String, ℤ, Bool, true, false, not, Option, none, some, List, [], ◌∷◌, any, lookup, insert,
  lookup-insert_self, str_eq, Bool-cases, Option-cases, ◌≡◌, refl, subst, inl, inr, arith,
}
use faas_share.Kube.{Float64}
use faas_share.DeviceManager.State.{NodeStatus, ready, not_ready, PodRequest, State}
use faas_share.DeviceManager.Config.{heartbeat, heartbeats, sync_config}

-- A line that ends the loop: it could not be read, or is no heartbeat.
abbrev pub ends_loop : ℤ × Option String → Bool
ends_loop (now, none) = true
ends_loop (now, some text) = not (str_eq text "heartbeat!\n")

module _ (fl : Float64) where
  abbrev Lost : String → State fl → Type 0
  Lost node t =
      (st : NodeStatus) × (lookup node t.statuses ≡ some st) × (st.client_status ≡ not_ready)

  pub heartbeat-lost :
      (node : String) (s : State fl) (now : ℤ) (line : Option String) (st : NodeStatus)
      → lookup node s.statuses ≡ some st
      → ends_loop (now, line) ≡ true
      → heartbeat fl node now line s
        ≡ some (
          record s { statuses = insert node (record st { client_status = not_ready }) s.statuses },
          false,
        )
  unfolding heartbeat
  heartbeat-lost node s now none st known bad = rw (known, heartbeat) refl
  heartbeat-lost node s now (some text) st known bad =
      let no : str_eq text "heartbeat!\n" ≡ false = ground arith in rw (known, no, heartbeat) refl

  pub heartbeat-seen :
      (node : String) (s : State fl) (now : ℤ) (line : Option String) (st : NodeStatus)
      → lookup node s.statuses ≡ some st
      → ends_loop (now, line) ≡ false
      → heartbeat fl node now line s
        ≡ some (
          record s {
            statuses =
                insert node (record st { last_heartbeat = now; client_status = ready }) s.statuses;
          },
          true,
        )
  unfolding heartbeat
  heartbeat-seen node s now none st known good = absurd (cc good)
  heartbeat-seen node s now (some text) st known good =
      let yes : str_eq text "heartbeat!\n" ≡ true = ground arith in rw (known, yes, heartbeat) refl

  heartbeat-unknown :
      (node : String) (s : State fl) (now : ℤ) (line : Option String)
      → lookup node s.statuses ≡ none
      → heartbeat fl node now line s ≡ none
  unfolding heartbeat
  heartbeat-unknown node s now line e = rw (e, heartbeat) refl

  abbrev LostAfter : String → Option (State fl) → Type 0
  LostAfter node none = node ≡ node
  LostAfter node (some t) = Lost node t

  heartbeats-LostAfter :
      (node : String) (lines : List (ℤ × Option String)) (s : State fl)
      → any ends_loop lines ≡ true
      → LostAfter node (heartbeats fl node lines s)
  unfolding heartbeats
  heartbeats-LostAfter node [] s bad = absurd (cc bad)
  heartbeats-LostAfter node ((now, line) ∷ rest) s bad =
      elim (Option-cases (lookup node s.statuses)) [
        | inl unknown ↦ rw (heartbeat-unknown node s now line unknown, heartbeats) refl
        | inr (st, known) ↦ elim (Bool-cases (ends_loop (now, line))) [
          | inl ends ↦
              let lost = record st { client_status = not_ready } in
              rw (heartbeat-lost node s now line st known ends, heartbeats)
                (lost, lookup-insert_self node lost s.statuses, refl)
          | inr goes_on ↦
              let seen = record st { last_heartbeat = now; client_status = ready } in
              rw (heartbeat-seen node s now line st known goes_on, heartbeats)
                (heartbeats-LostAfter node rest
                  (record s { statuses = insert node seen s.statuses }) (ground arith))
        ]
      ]

  -- Once a line of a node's stream could not be read or was no heartbeat, the handler has ended
  -- with the node not ready, and from then on `syncConfig` writes nothing to it and returns an
  -- error.
  pub heartbeats-lost :
      (node : String) (lines : List (ℤ × Option String)) (s t : State fl) (uuid : String)
      (ps : List (PodRequest fl))
      → any ends_loop lines ≡ true
      → heartbeats fl node lines s ≡ some t
      → sync_config fl node uuid ps t ≡ (t, true)
  unfolding sync_config
  heartbeats-lost node lines s t uuid ps bad run =
      let (st, known, status) =
        subst (LostAfter node) run (heartbeats-LostAfter node lines s bad) in
      rw (known, status, sync_config) refl
