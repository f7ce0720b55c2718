-- ===== src/DeviceManager/Run/Keeps.antt =====
-- A predicate on nodes that each section keeps, from what it does to one node.
use faas_share.Common.{
  List-cases, ◌-ℤ◌, str_eq_iff, arith, String, ℤ, pos, Bool, true, false, Option, none, some, List,
  [], ◌∷◌, Map, lookup, Values, Values-insert, Values-lookup, split, str_eq, trim, ◌||◌, Bool-cases,
  Option-cases, ◌≡◌, refl, sym, subst, inl, inr,
}
use faas_share.Bitmap.{RrBitmap, rr_unmask}
use faas_share.Kube.{Float64, Pod, Lookup, found, not_found, failed}
use faas_share.DeviceManager.State.{
  PodRequest, port_start, GpuInfo, NodeInfo, State, set_node, set_gpu, record_call, delete_pod,
  dummy_name,
}
use faas_share.DeviceManager.Config.{
  register_client, register_node, register_status, update_node_gpu_info, read_devices, heartbeat,
}
use faas_share.DeviceManager.Pool.{
  Claim, find_in_queue, take_port, clean_gpus, clean_nodes, clean_orphans, delete_dummy_pod,
}
use faas_share.DeviceManager.Pool.Codes.{joined, opened, sync_config-nodes}
use faas_share.DeviceManager.Pool.Dummy.{set_uuid, get_and_set_uuid, create_dummy}
use faas_share.DeviceManager.Pool.Invariant.{get_physical_gpu-Values}
use faas_share.DeviceManager.Pool.Removal.{without_key, leave_gpu, remove_request, entry_of, unlock}
use faas_share.DeviceManager.Session.Registered.{registered, sync_gpus-Further}
use faas_share.DeviceManager.Run.{
  Section, claims, cleans, registers, hears, checks, dummies, leaves, deletes, unlocks,
  removed_state, state_of, leave_section, do_section, run_sections,
}

module _ (fl : Float64) where
  -- What the sections do to a node, if the predicate allows it.
  pub record Stable (Small : Claim fl → Type 0) (P : NodeInfo fl → Type 0) : Type 0 where
    pub opens :
        (id : String) (c : Claim fl) (n : NodeInfo fl)
        → Small c
        → P n
        → lookup id n.gpus ≡ none
        → P (set_gpu fl id (opened fl c n) (take_port fl n).0)
    pub joins :
        (id : String) (c : Claim fl) (n : NodeInfo fl) (g : GpuInfo fl)
        → Small c
        → P n
        → lookup id n.gpus ≡ some g
        → find_in_queue fl c.key g.pod_list ≡ none
        → fl.gt (fl.add g.usage c.request) fl.one ≡ false
        → P (set_gpu fl id (joined fl c n g) (take_port fl n).0)
    pub starts : (ports : Map String) (ip : String) → P (registered fl none ports ip)
    pub returns :
        (ports : Map String) (ip : String) (n : NodeInfo fl)
        → P n
        → P (registered fl (some n) ports ip)
    pub identifies :
        (id uuid : String) (n : NodeInfo fl) (g : GpuInfo fl)
        → P n
        → lookup id n.gpus ≡ some g
        → P (set_gpu fl id (record g { uuid = uuid }) n)
    pub leaves :
        (id : String) (p : PodRequest fl) (n : NodeInfo fl) (g : GpuInfo fl) (s : State fl)
        (name : String) (free : RrBitmap)
        → P n
        → lookup id n.gpus ≡ some g
        → find_in_queue fl p.key g.pod_list ≡ some p
        → rr_unmask n.bitmap (p.port -ℤ port_start) ≡ some free
        → P (record (leave_gpu fl name id p n g s).0 { bitmap = free })
    pub forgets :
        (name : String) (n : NodeInfo fl) (s : State fl)
        → P n
        → P (record n { gpus = (clean_gpus fl name n.gpus s).0 })

  found_key :
      (key : String) (p : PodRequest fl) (ps : List (PodRequest fl))
      → find_in_queue fl key ps ≡ some p
      → p.key ≡ key
  unfolding find_in_queue
  found_key key p [] e = absurd (cc e)
  found_key key p (q ∷ ps) e = elim (Bool-cases (str_eq q.key key)) [
    | inl same ↦ let is : q ≡ p = ground arith in rw (← is) ((str_eq_iff q.key key).0 same)
    | inr other ↦ found_key key p ps (ground arith)
  ]

  -- Only small claims are made.
  abbrev pub SmallClaims : (Claim fl → Type 0) → List (Section fl) → Type 0
  SmallClaims Small [] = Unit
  SmallClaims Small (claims name id c port ∷ more) = Small c × SmallClaims Small more
  SmallClaims Small (cleans ∷ more) = SmallClaims Small more
  SmallClaims Small (registers node conn ip devices annotations ∷ more) = SmallClaims Small more
  SmallClaims Small (hears node now line ∷ more) = SmallClaims Small more
  SmallClaims Small (checks now ∷ more) = SmallClaims Small more
  SmallClaims Small (dummies name id log answers ∷ more) = SmallClaims Small more
  SmallClaims Small (leaves name id key ∷ more) = SmallClaims Small more
  SmallClaims Small (deletes name id uuid ∷ more) = SmallClaims Small more
  SmallClaims Small (unlocks ∷ more) = SmallClaims Small more

  module _ (Small : Claim fl → Type 0) (P : NodeInfo fl → Type 0) (stable : Stable Small P) where
    abbrev pub Kept : Option (State fl) → Type 0
    Kept none = Unit
    Kept (some t) = Values P t.nodes

    clean_nodes-Values :
        (ns : Map (NodeInfo fl)) (s : State fl) → Values P ns → Values P (clean_nodes fl ns s).0
    unfolding clean_nodes
    clean_nodes-Values [] s h = tt
    clean_nodes-Values ((name, n) ∷ ns) s h =
        (stable.forgets name n s h.0, clean_nodes-Values ns (clean_gpus fl name n.gpus s).1 h.1)

    register_node-Values :
        (node : String) (ports : Map String) (ip : String) (s : State fl)
        → Values P s.nodes
        → Values P (register_node fl node ports ip s).nodes
    unfolding register_node set_node
    register_node-Values node ports ip s h = elim (Option-cases (lookup node s.nodes)) [
      | inl new ↦
          rw (new, register_node)
            (Values-insert P node (registered fl none ports ip) s.nodes (stable.starts ports ip) h)
      | inr (n, known) ↦
          rw (known, register_node)
            (Values-insert P node (registered fl (some n) ports ip) s.nodes
              (stable.returns ports ip n (Values-lookup P node n s.nodes h known)) h)
    ]

    set_uuid-Kept :
        (name id uuid : String) (s : State fl)
        → Values P s.nodes
        → Kept (state_of fl (set_uuid fl name id uuid s))
    unfolding set_uuid set_node record_call
    set_uuid-Kept name id uuid s h = elim (Option-cases (lookup name s.nodes)) [
      | inl e ↦ rw (e, set_uuid) tt
      | inr (n, hn) ↦ elim (Option-cases (lookup uuid n.uuid2port)) [
        | inl e ↦ rw (hn, e, set_uuid) h
        | inr (port, hp) ↦ elim (Option-cases (lookup id n.gpus)) [
          | inl e ↦ rw (hn, hp, e, set_uuid) tt
          | inr (g, hg) ↦
              rw (hn, hp, hg, set_uuid)
                (Values-insert P name (set_gpu fl id (record g { uuid = uuid }) n) s.nodes
                  (stable.identifies id uuid n g (Values-lookup P name n s.nodes h hn) hg) h)
        ]
      ]
    ]

    -- The section after a failed pod may do what it likes, if it keeps the predicate.
    get_and_set_uuid-Kept :
        (name id phase : String) (log : Option String) (retry : State fl → Option (State fl × Bool))
        (s : State fl)
        → ((t : State fl) → Values P t.nodes → Kept (state_of fl (retry t)))
        → Values P s.nodes
        → Kept (state_of fl (get_and_set_uuid fl name id phase log retry s))
    unfolding get_and_set_uuid record_call
    get_and_set_uuid-Kept name id phase log retry s keeps h =
        elim (Bool-cases (str_eq phase "Failed")) [
          | inl e ↦
              rw (e, get_and_set_uuid)
                (ignored (retry (record_call fl (delete_pod (dummy_name name id)) s)) (keeps _ h))
          | inr e ↦ rw (e, get_and_set_uuid) (by_log log)
        ]
      where
        ignored :
            (r : Option (State fl × Bool))
            → Kept (state_of fl r)
            → Kept (state_of fl (elim r [ none ↦ none | some (t, error) ↦ some (t, true) ]))
        ignored none k = tt
        ignored (some (t, error)) k = k

        by_log :
            (l : Option String)
            → Kept (
                state_of fl (elim l [
                  | none ↦ some (s, true)
                  | some text ↦ set_uuid fl name id (trim text) s
                ]))
        by_log none = h
        by_log (some text) = set_uuid-Kept name id (trim text) s h

    create_dummy-Kept :
        (name id : String) (log : Option String) (answers : List (Lookup Pod)) (s : State fl)
        → Values P s.nodes
        → Kept (state_of fl (create_dummy fl name id log answers s))
    unfolding create_dummy record_call
    create_dummy-Kept name id log [] s h = h
    create_dummy-Kept name id log (failed ∷ rest) s h = h
    create_dummy-Kept name id log (not_found ∷ rest) s h =
        elim (Option-cases (lookup name s.nodes)) [
          | inl e ↦ rw (e, create_dummy) tt
          | inr (n, hn) ↦ elim (Option-cases (lookup id n.gpus)) [
            | inl e ↦ rw (hn, e, create_dummy) h
            | inr (g, hg) ↦ rw (hn, hg, create_dummy) h
          ]
        ]
    create_dummy-Kept name id log (found p ∷ rest) s h =
        elim (Bool-cases (str_eq p.phase "Running" || str_eq p.phase "Failed")) [
          | inl e ↦
              rw (e, create_dummy)
                (ignored
                  (get_and_set_uuid fl name id p.phase log (create_dummy fl name id log rest) s)
                  (get_and_set_uuid-Kept name id p.phase log (create_dummy fl name id log rest) s
                    (λ t k. create_dummy-Kept name id log rest t k) h))
          | inr e ↦ rw (e, create_dummy) h
        ]
      where
        ignored :
            (r : Option (State fl × Bool))
            → Kept (state_of fl r)
            → Kept (state_of fl (elim r [ none ↦ none | some (t, error) ↦ some (t, false) ]))
        ignored none k = tt
        ignored (some (t, error)) k = k

    register_client-Kept :
        (node conn ip devices : String) (annotations : Map String) (s : State fl)
        → Values P s.nodes
        → Kept (register_client fl node conn ip devices annotations s)
    unfolding register_client register_status update_node_gpu_info record_call
    register_client-Kept node conn ip devices annotations s h =
        elim (Option-cases (read_devices (split b',' devices) (pos 50051) [] [])) [
          | inl e ↦ rw (e, register_client) tt
          | inr ((mems, ports), e) ↦
              let r = register_node fl node ports ip s in
              let t =
                update_node_gpu_info fl node mems annotations (register_status fl node conn r) in
              elim (Option-cases (lookup node r.nodes)) [
                | inl gone ↦ rw (e, gone, register_client) tt
                | inr (n, here) ↦
                    rw (e, here, register_client)
                      (subst (Values P) (sym (sync_gpus-Further fl node n.gpus t).0)
                        (register_node-Values node ports ip s h))
              ]
        ]

    heartbeat-Kept :
        (node : String) (now : ℤ) (line : Option String) (s : State fl)
        → Values P s.nodes
        → Kept (state_of fl (heartbeat fl node now line s))
    unfolding heartbeat
    heartbeat-Kept node now line s h = elim (Option-cases (lookup node s.statuses)) [
      | inl e ↦ rw (e, heartbeat) tt
      | inr (st, e) ↦ rw (e, heartbeat) h
    ]

    leave_gpu-nodes :
        (name id : String) (p : PodRequest fl) (n : NodeInfo fl) (g : GpuInfo fl) (s : State fl)
        → (leave_gpu fl name id p n g s).1.1.nodes ≡ s.nodes
    unfolding leave_gpu
    leave_gpu-nodes name id p n g s = elim (List-cases (without_key fl p.key g.pod_list)) [
      | inl e ↦ rw (e, leave_gpu) refl
      | inr (q, qs, e) ↦ rw (e, leave_gpu) (sync_config-nodes fl name g.uuid (q ∷ qs) s)
    ]

    delete_dummy_pod-nodes :
        (name id uuid : String) (s : State fl)
        → (delete_dummy_pod fl name id uuid s).nodes ≡ s.nodes
    unfolding delete_dummy_pod record_call
    delete_dummy_pod-nodes name id uuid s =
        sync_config-nodes fl name uuid [] (record_call fl (delete_pod (dummy_name name id)) s)

    remove_request-Kept :
        (name id : String) (p : PodRequest fl) (n : NodeInfo fl) (g : GpuInfo fl) (s : State fl)
        → Values P s.nodes
        → lookup name s.nodes ≡ some n
        → lookup id n.gpus ≡ some g
        → find_in_queue fl p.key g.pod_list ≡ some p
        → Kept (removed_state fl (remove_request fl name id p n g s))
    unfolding remove_request set_node
    remove_request-Kept name id p n g s h hn hg hp =
        let left = leave_gpu fl name id p n g s in
        elim (Option-cases (rr_unmask n.bitmap (p.port -ℤ port_start))) [
          | inl e ↦ rw (e, remove_request) tt
          | inr (free, e) ↦
              rw (e, remove_request)
                (Values-insert P name (record left.0 { bitmap = free }) left.1.1.nodes
                  (stable.leaves id p n g s name free (Values-lookup P name n s.nodes h hn) hg hp e)
                  (subst (Values P) (sym (leave_gpu-nodes name id p n g s)) h))
        ]

    leave_section-Kept :
        (name id key : String) (s : State fl)
        → Values P s.nodes
        → Kept (leave_section fl name id key s)
    unfolding leave_section entry_of
    leave_section-Kept name id key s h = elim (Option-cases (lookup name s.nodes)) [
      | inl e ↦ rw (e, leave_section) h
      | inr (n, hn) ↦ elim (Option-cases (lookup id n.gpus)) [
        | inl e ↦ rw (hn, e, leave_section) h
        | inr (g, hg) ↦ elim (Option-cases (find_in_queue fl key g.pod_list)) [
          | inl e ↦ rw (hn, hg, e, leave_section) h
          | inr (p, hp) ↦
              let same : p.key ≡ key = found_key key p g.pod_list hp in
              rw (hn, hg, hp, leave_section)
                (remove_request-Kept name id p n g s h hn hg
                  (subst (λ k. find_in_queue fl k g.pod_list ≡ some p) (sym same) hp))
        ]
      ]
    ]

    do_section-Kept :
        (a : Section fl) (more : List (Section fl)) (s : State fl)
        → SmallClaims Small (a ∷ more)
        → Values P s.nodes
        → SmallClaims Small more × Kept (do_section fl a s)
    unfolding do_section clean_orphans unlock
    do_section-Kept (claims name id c port) more s small h = (
      small.1,
      get_physical_gpu-Values fl P name id c port s (λ n k new. stable.opens id c n small.0 k new)
          (λ n g k hg free fits. stable.joins id c n g small.0 k hg free fits) h,
    )
    do_section-Kept cleans more s small h = (small, clean_nodes-Values s.nodes s h)
    do_section-Kept (registers node conn ip devices annotations) more s small h =
        (small, register_client-Kept node conn ip devices annotations s h)
    do_section-Kept (hears node now line) more s small h = (small, heartbeat-Kept node now line s h)
    do_section-Kept (checks now) more s small h = (small, h)
    do_section-Kept (dummies name id log answers) more s small h =
        (small, create_dummy-Kept name id log answers s h)
    do_section-Kept (leaves name id key) more s small h =
        (small, leave_section-Kept name id key s h)
    do_section-Kept (deletes name id uuid) more s small h =
        (small, subst (Values P) (sym (delete_dummy_pod-nodes name id uuid s)) h)
    do_section-Kept unlocks more s small h = (small, tt)

    -- A predicate that every section keeps holds after every run.
    pub run_sections-Kept :
        (sections : List (Section fl)) (s : State fl)
        → SmallClaims Small sections
        → Values P s.nodes
        → Kept (run_sections fl sections s)
    unfolding run_sections
    run_sections-Kept [] s small h = h
    run_sections-Kept (a ∷ more) s small h =
        let (small', kept) = do_section-Kept a more s small h in
        elim (Option-cases (do_section fl a s)) [
          | inl e ↦ rw (e, run_sections) tt
          | inr (t, e) ↦ rw (e, run_sections) (run_sections-Kept more t small' (subst Kept e kept))
        ]
