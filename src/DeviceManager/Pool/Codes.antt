-- ===== src/DeviceManager/Pool/Codes.antt =====
-- The error codes of `getPhysicalGPUuuid`, and its second call for the same key.
use faas_share.Common.{
  ltb, ◌-◌, leb, ◌+◌, ℕ, String, ℤ, pos, negsuc, ◌+ℤ◌, add64, true, false, none, some, List, [],
  ◌∷◌, ◌++◌, lookup, lookup-insert_self, str_eq, str_eq_refl, is_empty, if◌then◌else◌, Bool-cases,
  Option-cases, ◌≡◌, ◌∙◌, refl, sym, ap, subst, ◌⊎◌, inl, inr, arith,
}
use faas_share.Kube.{Float64}
use faas_share.Bitmap.{RrBitmap, rr_scan, find_next_from_current_and_set, is_masked}
use faas_share.DeviceManager.State.{
  PodRequest, GpuInfo, NodeInfo, State, set_node, set_gpu, record_call, go_create_dummy,
  ClientStatus, ready, not_ready,
}
use faas_share.DeviceManager.Config.{sync_config}
use faas_share.DeviceManager.Pool.{
  Claim, Reply, reply, is_minus_one, find_in_queue, request_at, take_port, reply_known, open_gpu,
  join_gpu, get_physical_gpu,
}

-- What the round-robin search answers is a position or -1.
abbrev IsPosition : ℤ → Type 0
IsPosition (pos k) = k ≡ k
IsPosition (negsuc n) = n ≡ ℕ.zero

rr_scan-IsPosition : (r : RrBitmap) (rounds i : ℕ) → IsPosition (rr_scan r rounds i).1
unfolding rr_scan
rr_scan-IsPosition r ℕ.zero i = refl
rr_scan-IsPosition r (ℕ.suc rounds) i =
    elim (Bool-cases (is_masked r.bitmap (if ltb i r.l then i else i - r.l))) [
      | inl e ↦ rw e (rr_scan-IsPosition r rounds (ℕ.suc i))
      | inr e ↦ rw e refl
    ]

past_start : (x : ℤ) → IsPosition x → is_minus_one (x +ℤ pos 50050) ≡ false
unfolding is_minus_one ◌+ℤ◌
past_start (pos k) h = let e : leb 0 (k + 50050) ≡ true = ground arith in rw e refl
past_start (negsuc n) h = subst (λ m. is_minus_one (negsuc m +ℤ pos 50050) ≡ false) (sym h) refl

Status-cases : (c : ClientStatus) → (c ≡ ready) ⊎ (c ≡ not_ready)
Status-cases ready = inl refl
Status-cases not_ready = inr refl

module _ (fl : Float64) where
  take_port-not_full : (n : NodeInfo fl) → is_minus_one (take_port fl n).1 ≡ false
  unfolding take_port find_next_from_current_and_set
  take_port-not_full n =
      past_start (find_next_from_current_and_set n.bitmap).1
        (rr_scan-IsPosition n.bitmap n.bitmap.l n.bitmap.current)

  pub sync_config-nodes :
      (node uuid : String) (ps : List (PodRequest fl)) (s : State fl)
      → (sync_config fl node uuid ps s).0.nodes ≡ s.nodes
  unfolding sync_config record_call
  sync_config-nodes node uuid ps s = elim (Option-cases (lookup node s.statuses)) [
    | inl e ↦ ground arith
    | inr (st, e) ↦ elim (Status-cases st.client_status) [
      | inl r ↦ simp (sync_config, e, r)
      | inr r ↦ simp (sync_config, e, r)
    ]
  ]

  pub find_in_queue-append :
      (key : String) (ps : List (PodRequest fl)) (e : PodRequest fl)
      → e.key ≡ key
      → find_in_queue fl key ps ≡ none
      → find_in_queue fl key (ps ++ e ∷ []) ≡ some e
  unfolding find_in_queue
  find_in_queue-append key [] e h none_found = simp (h, str_eq_refl)
  find_in_queue-append key (p ∷ ps) e h none_found = elim (Bool-cases (str_eq p.key key)) [
    | inl same ↦ absurd (ground arith)
    | inr other ↦ rw other (find_in_queue-append key ps e h (ground arith))
  ]

  -- The pod is on the list of the GPU, and the reply names its port and the GPU's UUID.
  abbrev pub Registered : String → String → String → State fl → Reply → Type 0
  Registered name id key s r =
      (n : NodeInfo fl) × (g : GpuInfo fl) × (e : PodRequest fl) × (lookup name s.nodes ≡ some n)
      × (lookup id n.gpus ≡ some g)
      × (find_in_queue fl key g.pod_list ≡ some e)
      × (r.port ≡ e.port)
      × (r.uuid ≡ g.uuid)
      × (r.code ≡ (if is_empty g.uuid then 1 else 0))

  pub is_empty-nil : (u : String) → is_empty u ≡ true → "" ≡ u
  is_empty-nil String.[] h = refl
  is_empty-nil (String.◌∷◌ c u) h = absurd (cc h)

  reply_known-Registered :
      (name id key : String) (n : NodeInfo fl) (g : GpuInfo fl) (e : PodRequest fl) (s : State fl)
      → lookup name s.nodes ≡ some n
      → lookup id n.gpus ≡ some g
      → find_in_queue fl key g.pod_list ≡ some e
      → let a = reply_known fl name g e.port s in Registered name id key a.0 a.1
  unfolding reply_known
  reply_known-Registered name id key n g e s hn hg he = elim (Bool-cases (is_empty g.uuid)) [
    | inl empty ↦ rw empty (n, g, e, hn, hg, he, refl, is_empty-nil g.uuid empty, simp empty)
    | inr full ↦ rw full (
      n,
      g,
      e,
      ap (lookup name) (sync_config-nodes name g.uuid g.pod_list s) ∙ hn,
      hg,
      he,
      refl,
      refl,
      simp full,
    )
  ]

  -- The node takes the request: the GPU is not known yet, or it has the key on its list, or it has
  -- not and the usage with the request is at most 1.
  abbrev pub Takes : String → String → Claim fl → State fl → Type 0
  Takes name id c s =
      (n : NodeInfo fl) × (lookup name s.nodes ≡ some n)
      × ((lookup id n.gpus ≡ none)
          ⊎ ((g : GpuInfo fl) × (lookup id n.gpus ≡ some g)
              × (((p : PodRequest fl) × (find_in_queue fl c.key g.pod_list ≡ some p))
                  ⊎ ((find_in_queue fl c.key g.pod_list ≡ none)
                      × (fl.gt (fl.add g.usage c.request) fl.one ≡ false)))))

  -- What `getPhysicalGPUuuid` may leave, with the reasons for each of its codes.
  abbrev pub Outcome : String → String → Claim fl → ℤ → State fl → State fl × Reply → Type 0
  Outcome name id c port s a =
      ((lookup name s.nodes ≡ none) × (a ≡ (s, reply port "" 255)))
      ⊎ (((n : NodeInfo fl) × (g : GpuInfo fl) × (lookup name s.nodes ≡ some n)
            × (lookup id n.gpus ≡ some g)
            × (find_in_queue fl c.key g.pod_list ≡ none)
            × (fl.gt (fl.add g.usage c.request) fl.one ≡ true)
            × (a ≡ (s, reply port "" 2)))
          ⊎ (Takes name id c s × Registered name id c.key a.0 a.1))

  -- The GPU after a pod has joined it, and the state then.
  abbrev pub joined : Claim fl → NodeInfo fl → GpuInfo fl → GpuInfo fl
  joined c n g = record g {
    usage = fl.add g.usage c.request;
    mem = add64 g.mem c.memory;
    pod_list = g.pod_list ++ request_at fl c (take_port fl n).1 ∷ [];
  }

  abbrev pub with_gpu : String → String → GpuInfo fl → NodeInfo fl → State fl → State fl
  with_gpu name id g n s = set_node fl name (set_gpu fl id g n) s

  pub join_gpu-over :
      (name id : String) (c : Claim fl) (port : ℤ) (n : NodeInfo fl) (g : GpuInfo fl) (s : State fl)
      → fl.gt (fl.add g.usage c.request) fl.one ≡ true
      → join_gpu fl name id c port n g s ≡ (s, reply port "" 2)
  unfolding join_gpu
  join_gpu-over name id c port n g s over = rw over refl

  pub join_gpu-fits :
      (name id : String) (c : Claim fl) (port : ℤ) (n : NodeInfo fl) (g : GpuInfo fl) (s : State fl)
      → fl.gt (fl.add g.usage c.request) fl.one ≡ false
      → join_gpu fl name id c port n g s
        ≡ reply_known fl name
            (joined c n g)
            (take_port fl n).1
            (with_gpu name id (joined c n g) (take_port fl n).0 s)
  unfolding join_gpu
  join_gpu-fits name id c port n g s fits = rw (fits, take_port-not_full n) refl

  join_gpu-Outcome :
      (name id : String) (c : Claim fl) (port : ℤ) (n : NodeInfo fl) (g : GpuInfo fl) (s : State fl)
      → lookup name s.nodes ≡ some n
      → lookup id n.gpus ≡ some g
      → find_in_queue fl c.key g.pod_list ≡ none
      → Outcome name id c port s (join_gpu fl name id c port n g s)
  unfolding set_gpu set_node
  join_gpu-Outcome name id c port n g s hn hg free =
      elim (Bool-cases (fl.gt (fl.add g.usage c.request) fl.one)) [
        | inl over ↦ inr (inl (n, g, hn, hg, free, over, join_gpu-over name id c port n g s over))
        | inr fits ↦
            subst (Outcome name id c port s) (sym (join_gpu-fits name id c port n g s fits)) (
              inr (
                inr (
                  (n, hn, inr (g, hg, inr (free, fits))),
                  reply_known-Registered name id c.key
                      (set_gpu fl id (joined c n g) (take_port fl n).0) (joined c n g)
                      (request_at fl c (take_port fl n).1)
                      (with_gpu name id (joined c n g) (take_port fl n).0 s)
                      (lookup-insert_self name (set_gpu fl id (joined c n g) (take_port fl n).0)
                        s.nodes)
                      (lookup-insert_self id (joined c n g) (take_port fl n).0.gpus)
                      (find_in_queue-append c.key g.pod_list (request_at fl c (take_port fl n).1)
                        refl free),
                )))
      ]

  -- The GPU that is made for the first pod.
  abbrev pub opened : Claim fl → NodeInfo fl → GpuInfo fl
  opened c n = record {
    uuid = "";
    usage = c.request;
    mem = c.memory;
    pod_list = request_at fl c (take_port fl n).1 ∷ [];
  }

  pub open_gpu-eq :
      (name id : String) (c : Claim fl) (port : ℤ) (n : NodeInfo fl) (s : State fl)
      → open_gpu fl name id c port n s ≡ (
        record_call fl
            (go_create_dummy name id)
            (with_gpu name id (opened c n) (take_port fl n).0 s),
        reply (take_port fl n).1 "" 1,
      )
  unfolding open_gpu
  open_gpu-eq name id c port n s = rw (take_port-not_full n) refl

  open_gpu-Registered :
      (name id : String) (c : Claim fl) (port : ℤ) (n : NodeInfo fl) (s : State fl)
      → let a = open_gpu fl name id c port n s in Registered name id c.key a.0 a.1
  unfolding set_gpu set_node record_call find_in_queue
  open_gpu-Registered name id c port n s =
      subst (λ (a : State fl × Reply). Registered name id c.key a.0 a.1)
        (sym (open_gpu-eq name id c port n s))
        (
          set_gpu fl id (opened c n) (take_port fl n).0,
          opened c n,
          request_at fl c (take_port fl n).1,
          lookup-insert_self name (set_gpu fl id (opened c n) (take_port fl n).0) s.nodes,
          lookup-insert_self id (opened c n) (take_port fl n).0.gpus,
          simp str_eq_refl,
          refl,
          refl,
          refl,
        )

  module _ (name id : String) (c : Claim fl) (port : ℤ) (s : State fl) where
    pub get-unknown :
        lookup name s.nodes ≡ none → get_physical_gpu fl name id c port s ≡ (s, reply port "" 255)
    unfolding get_physical_gpu
    get-unknown e = ground arith

    module _ (n : NodeInfo fl) (hn : lookup name s.nodes ≡ some n) where
      pub get-open :
          lookup id n.gpus ≡ none
          → get_physical_gpu fl name id c port s ≡ open_gpu fl name id c port n s
      unfolding get_physical_gpu
      get-open e = rw (hn, e, get_physical_gpu) refl

      module _ (g : GpuInfo fl) (hg : lookup id n.gpus ≡ some g) where
        pub get-join :
            find_in_queue fl c.key g.pod_list ≡ none
            → get_physical_gpu fl name id c port s ≡ join_gpu fl name id c port n g s
        unfolding get_physical_gpu
        get-join e = ground arith

        pub get-known :
            (p : PodRequest fl)
            → find_in_queue fl c.key g.pod_list ≡ some p
            → get_physical_gpu fl name id c port s ≡ reply_known fl name g p.port s
        unfolding get_physical_gpu
        get-known p e = simp (get_physical_gpu, hn, hg, e)

    -- The call ends in one of three ways. Without the node: code 255 and no change. With a known
    -- GPU that has not the key on its list, and whose usage and the new request exceed 1: code 2 and
    -- no change. Else, which is where the GPU is not known, or has the key, or its usage and the
    -- request are at most 1: the key is on the list of the GPU, the port is the one that is listed,
    -- and the code is 0 with the UUID of the GPU, or 1 where the UUID is not known yet. So code 3
    -- never comes back.
    pub get_physical_gpu-Outcome : Outcome name id c port s (get_physical_gpu fl name id c port s)
    get_physical_gpu-Outcome = elim (Option-cases (lookup name s.nodes)) [
      | inl e ↦ inl (e, get-unknown e)
      | inr (n, hn) ↦ elim (Option-cases (lookup id n.gpus)) [
        | inl e ↦
            subst (Outcome name id c port s) (sym (get-open n hn e))
              (inr (inr ((n, hn, inl e), open_gpu-Registered name id c port n s)))
        | inr (g, hg) ↦ elim (Option-cases (find_in_queue fl c.key g.pod_list)) [
          | inl e ↦
              subst (Outcome name id c port s) (sym (get-join n hn g hg e))
                (join_gpu-Outcome name id c port n g s hn hg e)
          | inr (p, e) ↦ subst (Outcome name id c port s) (sym (get-known n hn g hg p e)) (
              inr (
                inr (
                  (n, hn, inr (g, hg, inl (p, e))),
                  reply_known-Registered name id c.key n g p s hn hg e,
                )))
        ]
      ]
    ]
