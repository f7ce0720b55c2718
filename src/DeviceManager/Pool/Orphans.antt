-- ===== src/DeviceManager/Pool/Orphans.antt =====
-- What `cleanOrphanDummyPod` of pkg/devicemanager/gpupool.go leaves.
use faas_share.Common.{
  String, Bool, true, false, List, [], ◌∷◌, ◌++◌, append-nil, append_assoc, map, keep, Map, lookup,
  Option-cases, List-cases, ◌≡◌, ◌∙◌, ◌⊎◌, refl, sym, ap, inl, inr,
}
use faas_share.Kube.{Float64}
use faas_share.DeviceManager.State.{
  Call, delete_pod, write, ClientStatus, ready, not_ready, PodRequest, GpuInfo, NodeInfo, State,
  record_call, dummy_name,
}
use faas_share.DeviceManager.Config.{sync_config}
use faas_share.DeviceManager.Pool.{delete_dummy_pod, clean_gpus, clean_nodes, clean_orphans}

-- The pods that a call deletes.
abbrev pub deleted_by : Call → List String
deleted_by (delete_pod name) = name ∷ []
deleted_by _ = []

abbrev pub deleted : List Call → List String
deleted [] = []
deleted (c ∷ cs) = deleted_by c ++ deleted cs

deleted-append : (cs ds : List Call) → deleted (cs ++ ds) ≡ deleted cs ++ deleted ds
deleted-append [] ds = refl
deleted-append (c ∷ cs) ds =
    ap (λ l. deleted_by c ++ l) (deleted-append cs ds)
    ∙ sym (append_assoc (deleted_by c) (deleted cs) (deleted ds))

ClientStatus-cases : (c : ClientStatus) → (c ≡ ready) ⊎ (c ≡ not_ready)
ClientStatus-cases ready = inl refl
ClientStatus-cases not_ready = inr refl

module _ (fl : Float64) where
  abbrev pub is_used : String × GpuInfo fl → Bool
  is_used (id, g) = elim g.pod_list [ [] ↦ false | p ∷ ps ↦ true ]

  -- The dummy pods of the GPUs without a request.
  abbrev pub orphans_of : String → Map (GpuInfo fl) → List String
  orphans_of name [] = []
  orphans_of name ((id, g) ∷ gs) = elim g.pod_list [
    | [] ↦ dummy_name name id ∷ orphans_of name gs
    | p ∷ ps ↦ orphans_of name gs
  ]

  abbrev pub all_orphans : Map (NodeInfo fl) → List String
  all_orphans [] = []
  all_orphans ((name, n) ∷ ns) = orphans_of name n.gpus ++ all_orphans ns

  abbrev pub used_only : String × NodeInfo fl → String × NodeInfo fl
  used_only (name, n) = (name, record n { gpus = keep is_used n.gpus })

  sync_config-deleted :
      (node uuid : String) (ps : List (PodRequest fl)) (s : State fl)
      → deleted (sync_config fl node uuid ps s).0.calls ≡ deleted s.calls
  unfolding sync_config record_call
  sync_config-deleted node uuid ps s = elim (Option-cases (lookup node s.statuses)) [
    | inl e ↦ rw (e, sync_config) refl
    | inr (client, e) ↦ elim (ClientStatus-cases client.client_status) [
      | inr off ↦ rw (e, off, sync_config) refl
      | inl on ↦
          rw (e, on, sync_config)
            (deleted-append s.calls (write client.conn _ ∷ []) ∙ append-nil (deleted s.calls))
    ]
  ]

  delete_dummy_pod-deleted :
      (name id uuid : String) (s : State fl)
      → deleted (delete_dummy_pod fl name id uuid s).calls
        ≡ deleted s.calls ++ dummy_name name id ∷ []
  unfolding delete_dummy_pod record_call
  delete_dummy_pod-deleted name id uuid s =
      sync_config-deleted name uuid [] (record_call fl (delete_pod (dummy_name name id)) s)
      ∙ deleted-append s.calls (delete_pod (dummy_name name id) ∷ [])

  pub clean_gpus-cleaned :
      (name : String) (gs : Map (GpuInfo fl)) (s : State fl)
      → ((clean_gpus fl name gs s).0 ≡ keep is_used gs)
        × (deleted (clean_gpus fl name gs s).1.calls ≡ deleted s.calls ++ orphans_of name gs)
  unfolding clean_gpus
  clean_gpus-cleaned name [] s = (refl, sym (append-nil (deleted s.calls)))
  clean_gpus-cleaned name ((id, g) ∷ gs) s = elim (List-cases g.pod_list) [
    | inl e ↦
        let (left, gone) = clean_gpus-cleaned name gs (delete_dummy_pod fl name id g.uuid s) in
        rw (e, clean_gpus, keep, orphans_of)
          (
            left,
            gone
                ∙ rw (delete_dummy_pod-deleted name id g.uuid s)
                    (append_assoc (deleted s.calls) (dummy_name name id ∷ []) (orphans_of name gs)),
          )
    | inr (p, ps, e) ↦
        let (left, gone) = clean_gpus-cleaned name gs s in
        rw (e, clean_gpus, keep, orphans_of) (ap (λ l. (id, g) ∷ l) left, gone)
  ]

  clean_nodes-cleaned :
      (ns : Map (NodeInfo fl)) (s : State fl)
      → ((clean_nodes fl ns s).0 ≡ map used_only ns)
        × (deleted (clean_nodes fl ns s).1.calls ≡ deleted s.calls ++ all_orphans ns)
  unfolding clean_nodes
  clean_nodes-cleaned [] s = (refl, sym (append-nil (deleted s.calls)))
  clean_nodes-cleaned ((name, n) ∷ ns) s =
      let (left, gone) = clean_gpus-cleaned name n.gpus s in
      let (rest, more) = clean_nodes-cleaned ns (clean_gpus fl name n.gpus s).1 in
      (
        rw (left, rest) refl,
        more ∙ rw gone (append_assoc (deleted s.calls) (orphans_of name n.gpus) (all_orphans ns)),
      )

  -- `cleanOrphanDummyPod` keeps of every node exactly the GPUs with a request, unchanged, and deletes
  -- in the cluster exactly the dummy pods of the others, each once.
  pub clean_orphans-cleaned :
      (s : State fl)
      → ((clean_orphans fl s).nodes ≡ map used_only s.nodes)
        × (deleted (clean_orphans fl s).calls ≡ deleted s.calls ++ all_orphans s.nodes)
  unfolding clean_orphans
  clean_orphans-cleaned s = clean_nodes-cleaned s.nodes s
