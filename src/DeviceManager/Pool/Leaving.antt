-- ===== src/DeviceManager/Pool/Leaving.antt =====
-- What `removeSharePodDepFromList` does to the pool, and how it ends.
use faas_share.Common.{
  some_inj, sub64, ◌-ℤ◌, List-cases, String, Option, none, some, List, [], ◌∷◌, lookup,
  lookup-insert_self, lookup-erase, value_at, str_eq, str_eq_refl, str_eq_iff, ◌+++◌, In, Bool, ◌≢◌,
  true, false, ◌⊎◌, Bool-cases, Option-cases, ◌≡◌, ◌∙◌, refl, sym, ap, subst, inl, inr, All, arith,
}
use faas_share.Kube.{Float64, Pod, gpuid_key}
use faas_share.Bitmap.{rr_unmask}
use faas_share.DeviceManager.State.{
  port_start, PodRequest, GpuInfo, NodeInfo, State, set_node, set_gpu,
}
use faas_share.DeviceManager.Pool.{find_in_queue}
use faas_share.DeviceManager.Pool.Removal.{
  Ended, returned, panicked, fatal, without_key, leave_gpu, remove_request, entry_of, unlock,
  remove_pod, remove_pods,
}
use faas_share.DeviceManager.Pool.Invariant.{DistinctKeys}

module _ (fl : Float64) where
  -- The entry of a pod in the pool.
  abbrev pub entry_of_pod : Pod → State fl → Option (PodRequest fl × (NodeInfo fl × GpuInfo fl))
  entry_of_pod pod s =
      entry_of fl pod.node_name (value_at gpuid_key pod.annotations)
        (pod.namespace +++ "/" +++ pod.name) s

  remove_pod-absent :
      (pod : Pod) (taken : Bool) (s : State fl)
      → entry_of_pod pod s ≡ none
      → remove_pod fl pod taken s ≡ returned s
  unfolding remove_pod unlock
  remove_pod-absent pod taken s e = ground arith

  remove_pod-found :
      (pod : Pod) (s t : State fl) (x : PodRequest fl × (NodeInfo fl × GpuInfo fl))
      → entry_of_pod pod s ≡ some x
      → remove_pod fl pod false s ≡ returned t
      → ⊥
  unfolding remove_pod unlock
  remove_pod-found pod s t (p, (n, g)) e h =
      elim (Option-cases
        (remove_request fl pod.node_name (value_at gpuid_key pod.annotations) p n g s)) [
          | inl f ↦ absurd (ground arith)
          | inr ((u, dummy), f) ↦ absurd (ground arith)
        ]

  continues :
      (pod : Pod) (taken : Bool) (rounds : List (Pod × Bool)) (s : State fl)
      → remove_pod fl pod taken s ≡ returned s
      → remove_pods fl ((pod, taken) ∷ rounds) s ≡ remove_pods fl rounds s
  unfolding remove_pods
  continues pod taken rounds s e = simp (remove_pods, e)

  remove_pods-found :
      (pod : Pod) (rounds : List (Pod × Bool)) (s t : State fl)
      (x : PodRequest fl × (NodeInfo fl × GpuInfo fl))
      → entry_of_pod pod s ≡ some x
      → remove_pods fl ((pod, false) ∷ rounds) s ≡ returned t
      → ⊥
  unfolding remove_pods
  remove_pods-found pod rounds s t x e h = by_end (remove_pod fl pod false s) refl
    where
      by_end : (r : Ended (State fl)) → remove_pod fl pod false s ≡ r → ⊥
      by_end (returned u) same = remove_pod-found pod s u x e same
      by_end (panicked u) same = absurd (ground arith)
      by_end (fatal u) same = absurd (ground arith)

  -- If `removeSharePodDepFromList` returns at all, either no pod of the deployment was on the list
  -- of its GPU, and nothing has changed; or there was such a pod, and at the last `Unlock` of its
  -- round another goroutine held the mutex, so that the lock of that goroutine could be what was
  -- unlocked. Otherwise a removal ends in unlocking a mutex that is not locked.
  pub remove_pods-returned :
      (rounds : List (Pod × Bool)) (s t : State fl)
      → remove_pods fl rounds s ≡ returned t
      → ((t ≡ s) × All (λ (r : Pod × Bool). entry_of_pod r.0 s ≡ none) rounds)
        ⊎ ((r : Pod × Bool) × In r rounds × (r.1 ≡ true) × (entry_of_pod r.0 s ≢ none))
  unfolding remove_pods
  remove_pods-returned [] s t h = inl (sym (cc h), tt)
  remove_pods-returned ((pod, taken) ∷ rounds) s t h = elim (Option-cases (entry_of_pod pod s)) [
    | inl e ↦
        let rest : remove_pods fl rounds s ≡ returned t =
          sym (continues pod taken rounds s (remove_pod-absent pod taken s e)) ∙ h in
        elim (remove_pods-returned rounds s t rest) [
          | inl (same, absent) ↦ inl (same, (e, absent))
          | inr (r, m, held, there) ↦ inr (r, inr m, held, there)
        ]
    | inr (x, e) ↦ elim (Bool-cases taken) [
      | inl held ↦ inr ((pod, taken), inl refl, held, λ f. absurd (ground arith))
      | inr free ↦ absurd (
          remove_pods-found pod rounds s t x e
            (subst (λ b. remove_pods fl ((pod, b) ∷ rounds) s ≡ returned t) free h))
    ]
  ]

  find_in_queue-without_key :
      (key : String) (ps : List (PodRequest fl))
      → DistinctKeys fl ps
      → find_in_queue fl key (without_key fl key ps) ≡ none
  unfolding find_in_queue without_key
  find_in_queue-without_key key [] h = refl
  find_in_queue-without_key key (p ∷ ps) h = elim (Bool-cases (str_eq p.key key)) [
    | inl same ↦ ground (arith, str_eq_iff p.key key)
    | inr other ↦ ground (arith, find_in_queue-without_key key ps h.1)
  ]

  -- The GPU of a node, if it is still there, has no entry for the key.
  abbrev pub Gone : String → String → NodeInfo fl → Type 0
  Gone id key n =
      (g : GpuInfo fl) → lookup id n.gpus ≡ some g → find_in_queue fl key g.pod_list ≡ none

  abbrev pub left_with : PodRequest fl → GpuInfo fl → List (PodRequest fl) → GpuInfo fl
  left_with p g ps = record g {
    usage = fl.sub g.usage p.request;
    mem = sub64 g.mem p.memory;
    pod_list = ps;
  }

  leave_gpu-Gone :
      (name id : String) (p : PodRequest fl) (n : NodeInfo fl) (g : GpuInfo fl) (s : State fl)
      → DistinctKeys fl g.pod_list
      → Gone id p.key (leave_gpu fl name id p n g s).0
  unfolding leave_gpu set_gpu
  leave_gpu-Gone name id p n g s h = elim (List-cases (without_key fl p.key g.pod_list)) [
    | inl e ↦
        rw (e, leave_gpu)
          (λ g' found. absurd (ground (arith, lookup-erase id id n.gpus, str_eq_refl id)))
    | inr (q, qs, e) ↦
        rw (e, leave_gpu)
          (λ g' found.
            let gone = find_in_queue-without_key p.key g.pod_list h in
            subst (λ (x : GpuInfo fl). find_in_queue fl p.key x.pod_list ≡ none)
              (some_inj (left_with p g (q ∷ qs)) g'
                (sym (lookup-insert_self id (left_with p g (q ∷ qs)) n.gpus) ∙ found))
              (subst (λ l. find_in_queue fl p.key l ≡ none) e gone))
  ]

  -- A removal that comes through takes the key off the list, for a list on which each key stands
  -- once: afterwards the node is still known, and its GPU is gone or has no entry for the key.
  pub remove_request-Gone :
      (name id : String) (p : PodRequest fl) (n : NodeInfo fl) (g : GpuInfo fl) (s t : State fl)
      (dummy : Option String)
      → DistinctKeys fl g.pod_list
      → remove_request fl name id p n g s ≡ some (t, dummy)
      → (m : NodeInfo fl) × (lookup name t.nodes ≡ some m) × Gone id p.key m
  unfolding remove_request set_node
  remove_request-Gone name id p n g s t dummy h done =
      let left = leave_gpu fl name id p n g s in
      elim (Option-cases (rr_unmask n.bitmap (p.port -ℤ port_start))) [
        | inl e ↦ absurd (ground arith)
        | inr (free, e) ↦
            let m = record left.0 { bitmap = free } in
            let u = set_node fl name m left.1.1 in
            let same : remove_request fl name id p n g s ≡ some (u, left.1.0) =
              rw (e, remove_request) refl in
            let eq =
              ap (λ (x : State fl × Option String). x.0)
                (some_inj (u, left.1.0) (t, dummy) (sym same ∙ done)) in
            (
              m,
              subst (λ (x : State fl). lookup name x.nodes ≡ some m) eq
                  (lookup-insert_self name m left.1.1.nodes),
              leave_gpu-Gone name id p n g s h,
            )
      ]
