-- ===== src/DeviceManager/Pool/Invariant.antt =====
-- What `getPhysicalGPUuuid` keeps of the pool, and what a second call does.
use faas_share.Common.{
  ℕ, String, ℤ, false, none, some, List, [], ◌∷◌, ◌++◌, lookup, Values, Values-insert,
  Values-lookup, str_eq, str_eq_iff, is_empty, if◌then◌else◌, Bool-cases, Option-cases, ◌≡◌, ◌≢◌,
  ◌∙◌, refl, sym, ap, subst, inl, inr, arith,
}
use faas_share.Kube.{Float64}
use faas_share.DeviceManager.State.{
  PodRequest, GpuInfo, NodeInfo, State, set_node, set_gpu, record_call,
}
use faas_share.DeviceManager.Pool.{
  Claim, Reply, reply, find_in_queue, request_at, take_port, reply_known, join_gpu,
  get_physical_gpu,
}
use faas_share.DeviceManager.Pool.Codes.{
  sync_config-nodes, joined, opened, with_gpu, join_gpu-over, join_gpu-fits, open_gpu-eq,
  get-unknown, get-open, get-join, get-known, is_empty-nil, get_physical_gpu-Outcome,
}

module _ (fl : Float64) where
  reply_known-nodes :
      (name : String) (g : GpuInfo fl) (port : ℤ) (s : State fl)
      → (reply_known fl name g port s).0.nodes ≡ s.nodes
  unfolding reply_known
  reply_known-nodes name g port s = elim (Bool-cases (is_empty g.uuid)) [
    | inl e ↦ simp (reply_known, e)
    | inr e ↦ simp (reply_known, e, sync_config-nodes fl name g.uuid g.pod_list s)
  ]

  -- A predicate on nodes that joining and opening keep is kept by the whole call.
  module _ (P : NodeInfo fl → Type 0) (name id : String) (c : Claim fl) (port : ℤ) (s : State fl)
      (opens : (n : NodeInfo fl)
        → P n
        → lookup id n.gpus ≡ none
        → P (set_gpu fl id (opened fl c n) (take_port fl n).0))
      (joins : (n : NodeInfo fl) (g : GpuInfo fl)
        → P n
        → lookup id n.gpus ≡ some g
        → find_in_queue fl c.key g.pod_list ≡ none
        → fl.gt (fl.add g.usage c.request) fl.one ≡ false
        → P (set_gpu fl id (joined fl c n g) (take_port fl n).0)) where
    join_gpu-Values :
        (n : NodeInfo fl) (g : GpuInfo fl)
        → P n
        → lookup id n.gpus ≡ some g
        → find_in_queue fl c.key g.pod_list ≡ none
        → Values P s.nodes
        → Values P (join_gpu fl name id c port n g s).0.nodes
    unfolding set_node
    join_gpu-Values n g here hg free h =
        let Q = λ (a : State fl × Reply). Values P a.0.nodes in
        let m = set_gpu fl id (joined fl c n g) (take_port fl n).0 in
        elim (Bool-cases (fl.gt (fl.add g.usage c.request) fl.one)) [
          | inl over ↦ subst Q (sym (join_gpu-over fl name id c port n g s over)) h
          | inr fits ↦ subst Q (sym (join_gpu-fits fl name id c port n g s fits)) (
              subst (Values P)
                (sym (
                  reply_known-nodes name (joined fl c n g) (take_port fl n).1
                    (with_gpu fl name id (joined fl c n g) (take_port fl n).0 s)))
                (Values-insert P name m s.nodes (joins n g here hg free fits) h))
        ]

    pub get_physical_gpu-Values :
        Values P s.nodes → Values P (get_physical_gpu fl name id c port s).0.nodes
    unfolding set_node record_call
    get_physical_gpu-Values h =
        let Q = λ (a : State fl × Reply). Values P a.0.nodes in
        elim (Option-cases (lookup name s.nodes)) [
          | inl e ↦ subst Q (sym (get-unknown fl name id c port s e)) h
          | inr (n, hn) ↦
              let here = Values-lookup P name n s.nodes h hn in
              elim (Option-cases (lookup id n.gpus)) [
                | inl e ↦
                    subst Q
                      (sym
                        (get-open fl name id c port s n hn e ∙ open_gpu-eq fl name id c port n s))
                      (Values-insert P name (set_gpu fl id (opened fl c n) (take_port fl n).0)
                        s.nodes (opens n here e) h)
                | inr (g, hg) ↦ elim (Option-cases (find_in_queue fl c.key g.pod_list)) [
                  | inl e ↦
                      subst Q (sym (get-join fl name id c port s n hn g hg e))
                        (join_gpu-Values n g here hg e h)
                  | inr (p, e) ↦
                      subst Q (sym (get-known fl name id c port s n hn g hg p e))
                        (subst (Values P) (sym (reply_known-nodes name g p.port s)) h)
                ]
              ]
        ]

  -- No GPU of a node is used beyond 1.
  abbrev pub WithinOne : NodeInfo fl → Type 0
  WithinOne n = Values (λ (g : GpuInfo fl). fl.gt g.usage fl.one ≡ false) n.gpus

  -- A call with a request of at most 1 keeps the usage of every GPU on every node at most 1.
  pub get_physical_gpu-WithinOne :
      (name id : String) (c : Claim fl) (port : ℤ) (s : State fl)
      → fl.gt c.request fl.one ≡ false
      → Values WithinOne s.nodes
      → Values WithinOne (get_physical_gpu fl name id c port s).0.nodes
  unfolding set_gpu take_port
  get_physical_gpu-WithinOne name id c port s small =
      let Q = λ (g : GpuInfo fl). fl.gt g.usage fl.one ≡ false in
      get_physical_gpu-Values WithinOne name id c port s
        (λ n h new. Values-insert Q id (opened fl c n) n.gpus small h)
        (λ n g h hg free fits. Values-insert Q id (joined fl c n g) n.gpus fits h)

  -- Each key stands once on a list.
  abbrev pub DistinctKeys : List (PodRequest fl) → Type 0
  DistinctKeys [] = Unit
  DistinctKeys (p ∷ ps) = (find_in_queue fl p.key ps ≡ none) × DistinctKeys ps

  find_in_queue-append_ne :
      (key : String) (ps : List (PodRequest fl)) (e : PodRequest fl)
      → str_eq e.key key ≡ false
      → find_in_queue fl key ps ≡ none
      → find_in_queue fl key (ps ++ e ∷ []) ≡ none
  unfolding find_in_queue
  find_in_queue-append_ne key [] e ne h = simp ne
  find_in_queue-append_ne key (p ∷ ps) e ne h = elim (Bool-cases (str_eq p.key key)) [
    | inl same ↦ absurd (ground arith)
    | inr other ↦ rw other (find_in_queue-append_ne key ps e ne (ground arith))
  ]

  pub DistinctKeys-append :
      (ps : List (PodRequest fl)) (e : PodRequest fl)
      → DistinctKeys ps
      → find_in_queue fl e.key ps ≡ none
      → DistinctKeys (ps ++ e ∷ [])
  unfolding find_in_queue
  DistinctKeys-append [] e h free = (refl, tt)
  DistinctKeys-append (p ∷ ps) e h free = elim (Bool-cases (str_eq p.key e.key)) [
    | inl same ↦ absurd (ground arith)
    | inr other ↦ (
      find_in_queue-append_ne p.key ps e
          (ground (arith, str_eq_iff p.key e.key, str_eq_iff e.key p.key)) h.0,
      DistinctKeys-append ps e h.1 (ground arith),
    )
  ]

  abbrev pub OncePerGpu : NodeInfo fl → Type 0
  OncePerGpu n = Values (λ (g : GpuInfo fl). DistinctKeys g.pod_list) n.gpus

  -- A call keeps every key at most once on the list of each GPU.
  pub get_physical_gpu-OncePerGpu :
      (name id : String) (c : Claim fl) (port : ℤ) (s : State fl)
      → Values OncePerGpu s.nodes
      → Values OncePerGpu (get_physical_gpu fl name id c port s).0.nodes
  unfolding set_gpu take_port find_in_queue
  get_physical_gpu-OncePerGpu name id c port s =
      let Q = λ (g : GpuInfo fl). DistinctKeys g.pod_list in
      get_physical_gpu-Values OncePerGpu name id c port s
        (λ n h new. Values-insert Q id (opened fl c n) n.gpus (refl, tt) h)
        (λ n g h hg free fits.
          Values-insert Q id (joined fl c n g) n.gpus
            (DistinctKeys-append g.pod_list (request_at fl c (take_port fl n).1)
              (Values-lookup Q id g n.gpus h hg) free)
            h)

  reply-eta :
      (r : Reply) (port : ℤ) (uuid : String) (code : ℕ)
      → r.port ≡ port
      → r.uuid ≡ uuid
      → r.code ≡ code
      → reply port uuid code ≡ r
  reply-eta r port uuid code hp hu hc = rw (sym hp, sym hu, sym hc) refl

  reply_known-reply :
      (name : String) (g : GpuInfo fl) (port : ℤ) (s : State fl) (r : Reply)
      → r.port ≡ port
      → r.uuid ≡ g.uuid
      → r.code ≡ (if is_empty g.uuid then 1 else 0)
      → (reply_known fl name g port s).1 ≡ r
  unfolding reply_known
  reply_known-reply name g port s r hp hu hc = elim (Bool-cases (is_empty g.uuid)) [
    | inl e ↦
        rw (reply_known, e)
          (reply-eta r port "" 1 hp (hu ∙ sym (is_empty-nil fl g.uuid e)) (hc ∙ simp e))
    | inr e ↦ rw (reply_known, e) (reply-eta r port g.uuid 0 hp hu (hc ∙ simp e))
  ]

  retry_of_result :
      (name id : String) (c again : Claim fl) (port other : ℤ) (s : State fl)
      → again.key ≡ c.key
      → let a = get_physical_gpu fl name id c port s in
        a.1.code ≢ 2
        → a.1.code ≢ 255
        → let b = get_physical_gpu fl name id again other a.0 in
          (b.0.nodes ≡ a.0.nodes) × (b.1 ≡ a.1)
  retry_of_result name id c again port other s same not_over not_unknown =
      elim (get_physical_gpu-Outcome fl name id c port s) [
        | inl (_, e) ↦ absurd (not_unknown (ap (λ (a : State fl × Reply). a.1.code) e))
        | inr (inl (_, _, _, _, _, _, e)) ↦
            absurd (not_over (ap (λ (a : State fl × Reply). a.1.code) e))
        | inr (inr (_, (n, g, e, hn, hg, he, hport, huuid, hcode))) ↦
            let a = get_physical_gpu fl name id c port s in
            let found = subst (λ k. find_in_queue fl k g.pod_list ≡ some e) (sym same) he in
            subst (λ (b : State fl × Reply). (b.0.nodes ≡ a.0.nodes) × (b.1 ≡ a.1))
              (sym (get-known fl name id again other a.0 n hn g hg e found))
              (
                reply_known-nodes name g e.port a.0,
                reply_known-reply name g e.port a.0 a.1 hport huuid hcode,
              )
      ]

  -- After a call that answers code 0 or 1, any further call for the same key answers the same
  -- and changes nothing in the pool.
  pub get_physical_gpu-retry :
      (name id : String) (c again : Claim fl) (port other : ℤ) (s t : State fl) (r : Reply)
      → again.key ≡ c.key
      → get_physical_gpu fl name id c port s ≡ (t, r)
      → r.code ≢ 2
      → r.code ≢ 255
      → let b = get_physical_gpu fl name id again other t in (b.0.nodes ≡ t.nodes) × (b.1 ≡ r)
  get_physical_gpu-retry name id c again port other s t r same e =
      subst
        (λ (a : State fl × Reply).
          a.1.code ≢ 2
          → a.1.code ≢ 255
          → let b = get_physical_gpu fl name id again other a.0 in
            (b.0.nodes ≡ a.0.nodes) × (b.1 ≡ a.1))
        e (retry_of_result name id c again port other s same)
