-- ===== src/DeviceManager/Session/Beats.antt =====
-- The loop of `clientHandler` over the heartbeats of an agent and the end of its stream.
use faas_share.Common.{
  ℕ, zero, suc, ◌+◌, String, ℤ, Option, none, some, replicate, lookup, insert, lookup-insert_self,
  Nowhere, ◌≡◌, refl,
}
use faas_share.Kube.{Float64}
use faas_share.DeviceManager.State.{NodeStatus, ready, not_ready, State}
use faas_share.DeviceManager.Config.{heartbeats}
use faas_share.DeviceManager.Config.Laws.{heartbeat-lost, heartbeat-seen}
use faas_share.DeviceManager.Session.{beats_at}

-- The time of the last of n lines, the first of which is line i.
abbrev pub last_time : (ℕ → ℤ) → ℤ → ℕ → ℕ → ℤ
last_time now before i zero = before
last_time now before i (suc n) = last_time now (now i) (i + 1) n

module _ (fl : Float64) (node conn : String) where
  -- The handler has returned, and only the status of the node has changed.
  abbrev pub Over : ℤ → State fl → Option (State fl) → Type 0
  Over time t none = Nowhere
  Over time t (some u) =
      (u.nodes ≡ t.nodes)
      × (u.calls ≡ t.calls)
      × (lookup node u.statuses
          ≡ some (record { conn = conn; last_heartbeat = time; client_status = not_ready }))

  pub heartbeats-Over :
      (now : ℕ → ℤ) (n i : ℕ) (t : State fl) (st : NodeStatus)
      → lookup node t.statuses ≡ some st
      → st.conn ≡ conn
      → Over
          (last_time now st.last_heartbeat i n)
          t
          (heartbeats fl node (beats_at now i (replicate n "heartbeat!\n")) t)
  unfolding heartbeats
  heartbeats-Over now zero i t st known is =
      let lost = record st { client_status = not_ready } in
      rw (heartbeat-lost fl node t (now i) none st known refl, heartbeats)
        (refl, refl, rw (lookup-insert_self node lost t.statuses, is) refl)
  heartbeats-Over now (suc n) i t st known is =
      let seen = record st { last_heartbeat = now i; client_status = ready } in
      let u = record t { statuses = insert node seen t.statuses } in
      rw (heartbeat-seen fl node t (now i) (some "heartbeat!\n") st known refl, heartbeats)
        (heartbeats-Over now n (i + 1) u seen (lookup-insert_self node seen t.statuses) is)
