-- ===== src/Scheduler/BestFit/Fresh.antt =====
-- What follows for the GPU that `scheduleSharePod` chooses.
use faas_share.Common.{
  String, ℤ, ◌≡◌, refl, subst, sym, ap, ◌∙◌, ◌≢◌, inl, inr, Option-cases, List, [], ◌∷◌, arith,
  true, none, some, In, Map, Values, lookup, keep,
}
use faas_share.Kube.{Float64, Pod, Node}
use faas_share.Scheduler.Resources.{
  GpuInfo, NodeResource, NodeResources, sync_cluster_resources, affinity_key, anti_affinity_key,
}
use faas_share.Scheduler.Resources.Sharing.{NoGpus, sync_cluster_resources-NoGpus}
use faas_share.Scheduler.Filters.{
  on_gpus, affinity_filter, anti_affinity_filter, exclude_gpus, run_filters, affine,
  not_anti_affine,
}
use faas_share.Scheduler.BestFit.{Request, request_of, best_fit, schedule_share_pod}
use faas_share.Scheduler.BestFit.Fits.{FitsOn, best_fit-Fits, Fits}

on_gpus-NoGpus :
    (f : Map GpuInfo → Map GpuInfo) (rs : NodeResources)
    → f [] ≡ []
    → Values NoGpus rs
    → Values NoGpus (on_gpus f rs)
unfolding on_gpus
on_gpus-NoGpus f [] e h = tt
on_gpus-NoGpus f ((name, r) ∷ rs) e h = (rw h.0 e, on_gpus-NoGpus f rs e h.1)

run_filters-NoGpus :
    (p : Pod) (rs : NodeResources) → Values NoGpus rs → Values NoGpus (run_filters p rs)
unfolding run_filters exclude_gpus
run_filters-NoGpus p rs h =
    on_gpus-NoGpus _ (anti_affinity_filter p (affinity_filter p rs)) refl
      (anti (affinity_filter p rs) (affinity rs h))
  where
    affinity : (rs : NodeResources) → Values NoGpus rs → Values NoGpus (affinity_filter p rs)
    affinity rs h = elim (Option-cases (lookup affinity_key p.annotations)) [
      | inl e ↦ rw (e, affinity_filter) h
      | inr (t, e) ↦ rw (e, affinity_filter) (on_gpus-NoGpus (keep (affine t)) rs refl h)
    ]

    anti : (rs : NodeResources) → Values NoGpus rs → Values NoGpus (anti_affinity_filter p rs)
    anti rs h = elim (Option-cases (lookup anti_affinity_key p.annotations)) [
      | inl e ↦ rw (e, anti_affinity_filter) h
      | inr (t, e) ↦
          rw (e, anti_affinity_filter) (on_gpus-NoGpus (keep (not_anti_affine t)) rs refl h)
    ]

Values-In :
    (rs : NodeResources) (name : String) (r : NodeResource)
    → Values NoGpus rs
    → In (name, r) rs
    → NoGpus r
Values-In [] name r h m = elim m [ ]
Values-In ((k, s) ∷ rs) name r h (inl e) = subst (λ e. NoGpus e.1) (sym e) h.0
Values-In ((k, s) ∷ rs) name r h (inr m) = Values-In rs name r h.1 m

In-nil : (id : String) (g : GpuInfo) (gs : Map GpuInfo) → gs ≡ [] → In (id, g) gs → ⊥
In-nil id g [] e m = elim m [ ]
In-nil id g (x ∷ gs) e m = cc

new_of_NoGpus :
    (q : Request) (name id : String) (r : NodeResource)
    → q.is_gpu_pod ≡ true
    → NoGpus r
    → FitsOn q name r id
    → id ≡ q.new_id name
new_of_NoGpus q name id r gpu_pod free fits = elim fits.gpu [
  | inl (plain, _) ↦ absurd (cc)
  | inr (_, inl (g, m, _)) ↦ absurd (In-nil id g r.gpu_free free m)
  | inr (_, inr (_, _, new)) ↦ new
]

chosen_new :
    (q : Request) (rs : NodeResources) (name id : String)
    → q.is_gpu_pod ≡ true
    → Values NoGpus rs
    → best_fit q rs ≡ (name, id)
    → name ≢ ""
    → id ≡ q.new_id name
chosen_new q rs name id gpu_pod free chosen named =
    let fits : Fits q rs name id =
      subst (λ (b : String × String). Fits q rs b.0 b.1) chosen
        (best_fit-Fits q rs (λ e. named (sym (ap (λ (b : String × String). b.0) chosen) ∙ e))) in
    let (r, m, on) = fits in new_of_NoGpus q name id r gpu_pod (Values-In rs name r free m) on

-- Under the same documented behaviour of `ParseFloat`, a GPU pod that is placed always gets the
-- freshly made identifier of its node, never a GPU that another pod uses already.
pub schedule_share_pod-new_id :
    (fl : Float64) (new_id : String → String) (request : fl.F) (mem : ℤ) (p : Pod) (ns : List Node)
    (ps : List Pod) (name id : String)
    → fl.parse "" ≡ none
    → schedule_share_pod fl true request mem p new_id ns ps ≡ some (name, id)
    → name ≢ ""
    → id ≡ new_id name
unfolding schedule_share_pod
schedule_share_pod-new_id fl new_id request mem p ns ps name id empty e named =
    elim (Option-cases (sync_cluster_resources fl ns ps)) [
      | inl waits ↦ absurd (ground arith)
      | inr (rs, synced) ↦
          let q = request_of fl true request mem p new_id in
          let chosen : best_fit q (run_filters p rs) ≡ (name, id) = ground arith in
          chosen_new q (run_filters p rs) name id refl
            (run_filters-NoGpus p rs (sync_cluster_resources-NoGpus fl empty ns ps rs synced))
            chosen named
    ]
