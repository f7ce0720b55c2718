-- ===== src/Scheduler/BestFit/Fits.antt =====
-- Which node and GPU the best-fit search may answer, and when it answers none.
use faas_share.Common.{
  String, pos, ◌≤ℤ◌, ◌<ℤ◌, ◌≡◌, refl, subst, sym, ap, ◌≢◌, ◌⊎◌, inl, inr, Bool-cases, List, [], ◌∷◌,
  arith, All, All-In, All-map, All-append, In, Map, true, false, ltb_ℤ, ◌||◌,
}
use faas_share.Scheduler.Resources.{GpuInfo, NodeResource, NodeResources}
use faas_share.Scheduler.BestFit.{
  Candidate, no_node, Request, too_small, gpu_candidates, new_gpu_candidates, or_new,
  node_candidates, candidates, best_of, best_fit,
}
use faas_share.Scheduler.BestFit.Choice.{best_of-least, best_of-In}

-- A GPU in use with room for the request.
abbrev pub HasRoom : Request → GpuInfo → Type 0
HasRoom q g = (q.gpu_milli ≤ℤ g.free_req) × (q.gpu_mem ≤ℤ g.free_mem)

-- What the algorithm means by a fit: the node has the CPU and memory, and a GPU pod gets a GPU in
-- use that has room, or, only where none has room, a new one on a node with a GPU to spare. Any
-- other pod gets no GPU.
pub record FitsOn (q : Request) (name : String) (r : NodeResource) (id : String) : Type 0 where
  pub cpu_enough : q.cpu ≤ℤ r.cpu_free
  pub mem_enough : q.mem ≤ℤ r.mem_free
  pub gpu :
      ((q.is_gpu_pod ≡ false) × (id ≡ ""))
      ⊎ ((q.is_gpu_pod ≡ true)
          × (((g : GpuInfo) × In (id, g) r.gpu_free × HasRoom q g)
              ⊎ (All (λ e. ¬ HasRoom q e.1) r.gpu_free
                  × (pos 0 <ℤ r.gpu_free_count)
                  × (id ≡ q.new_id name))))

abbrev pub Fits : Request → NodeResources → String → String → Type 0
Fits q rs name id = (r : NodeResource) × In (name, r) rs × FitsOn q name r id

abbrev OnGpu : Request → String → Map GpuInfo → Candidate → Type 0
OnGpu q name gs c = (c.node_name ≡ name) × ((g : GpuInfo) × In (c.gpuid, g) gs × HasRoom q g)

gpu_candidates-OnGpu :
    (q : Request) (name : String) (gs : Map GpuInfo)
    → All (OnGpu q name gs) (gpu_candidates q name gs)
unfolding gpu_candidates
gpu_candidates-OnGpu q name [] = tt
gpu_candidates-OnGpu q name ((id, g) ∷ gs) =
    let later : All (OnGpu q name ((id, g) ∷ gs)) (gpu_candidates q name gs) =
      All-map (OnGpu q name gs) (OnGpu q name ((id, g) ∷ gs)) (gpu_candidates q name gs)
        (λ c (e, (h, m, room)). (e, (h, inr m, room))) (gpu_candidates-OnGpu q name gs) in
    elim (Bool-cases (too_small q g)) [
      | inl small ↦ rw small later
      | inr fits ↦ rw fits ((refl, (g, inl refl, ground arith)), later)
    ]

no_room :
    (q : Request) (name : String) (gs : Map GpuInfo)
    → gpu_candidates q name gs ≡ []
    → All (λ e. ¬ HasRoom q e.1) gs
unfolding gpu_candidates
no_room q name [] e = tt
no_room q name ((id, g) ∷ gs) e = elim (Bool-cases (too_small q g)) [
  | inl small ↦ (λ room. ground arith, no_room q name gs (rw small at e))
  | inr fits ↦ absurd (let same = rw fits at e in cc same)
]

new_gpu-lem :
    (q : Request) (name : String) (r : NodeResource)
    → All
        (λ c. (c.node_name ≡ name) × (c.gpuid ≡ q.new_id name) × (pos 0 <ℤ r.gpu_free_count))
        (new_gpu_candidates q name r)
unfolding new_gpu_candidates
new_gpu-lem q name r = elim (Bool-cases (ltb_ℤ (pos 0) r.gpu_free_count)) [
  | inl more ↦ rw more ((refl, refl, ground arith), tt)
  | inr none_left ↦ rw none_left tt
]

abbrev FitsNode : Request → String → NodeResource → Candidate → Type 0
FitsNode q name r c = (c.node_name ≡ name) × FitsOn q name r c.gpuid

gpu_node-Fits :
    (q : Request) (name : String) (r : NodeResource)
    → q.cpu ≤ℤ r.cpu_free
    → q.mem ≤ℤ r.mem_free
    → q.is_gpu_pod ≡ true
    → (cs : List Candidate) → gpu_candidates q name r.gpu_free ≡ cs
    → All (OnGpu q name r.gpu_free) cs
    → All (FitsNode q name r) (or_new cs (new_gpu_candidates q name r))
gpu_node-Fits q name r cpu mem gpu_pod [] e h =
    All-map _ (FitsNode q name r) (new_gpu_candidates q name r)
      (λ c (n, id, more). (
        n,
        record {
          cpu_enough = cpu;
          mem_enough = mem;
          gpu = inr (gpu_pod, inr (no_room q name r.gpu_free e, more, id));
        },
      ))
      (new_gpu-lem q name r)
gpu_node-Fits q name r cpu mem gpu_pod (c ∷ cs) e h =
    All-map (OnGpu q name r.gpu_free) (FitsNode q name r) (c ∷ cs)
      (λ d (n, found).
        (n, record { cpu_enough = cpu; mem_enough = mem; gpu = inr (gpu_pod, inl found) }))
      h

node_candidates-Fits :
    (q : Request) (name : String) (r : NodeResource)
    → All (FitsNode q name r) (node_candidates q name r)
unfolding node_candidates
node_candidates-Fits q name r =
    elim (Bool-cases (ltb_ℤ r.cpu_free q.cpu || ltb_ℤ r.mem_free q.mem)) [
      | inl short ↦ rw short tt
      | inr enough ↦ rw enough (elim (Bool-cases q.is_gpu_pod) [
        | inl gpu ↦ simp gpu (
            gpu_node-Fits q name r (ground arith) (ground arith) gpu
              (gpu_candidates q name r.gpu_free) refl (gpu_candidates-OnGpu q name r.gpu_free))
        | inr plain ↦ simp plain (
          (
            refl,
            record {
              cpu_enough = ground arith;
              mem_enough = ground arith;
              gpu = inl (plain, refl);
            },
          ),
          tt,
        )
      ])
    ]

abbrev FitsSome : Request → NodeResources → Candidate → Type 0
FitsSome q rs c = Fits q rs c.node_name c.gpuid

candidates-Fits : (q : Request) (rs : NodeResources) → All (FitsSome q rs) (candidates q rs)
unfolding candidates
candidates-Fits q [] = tt
candidates-Fits q ((name, r) ∷ rs) =
    All-append (FitsSome q ((name, r) ∷ rs)) (node_candidates q name r) (candidates q rs)
      (All-map (FitsNode q name r) (FitsSome q ((name, r) ∷ rs)) (node_candidates q name r)
        (λ c (n, fits).
          (r, inl (ap (λ k. (k, r)) n), subst (λ k. FitsOn q k r c.gpuid) (sym n) fits))
        (node_candidates-Fits q name r))
      (All-map (FitsSome q rs) (FitsSome q ((name, r) ∷ rs)) (candidates q rs)
        (λ c (s, m, fits). (s, inr m, fits)) (candidates-Fits q rs))

-- If the algorithm answers a node, that node fits with the GPU that it answers: CPU and memory
-- suffice, and a GPU pod is put on a GPU in use with room, or on a new one where no GPU in use on
-- that node has room and one is to spare.
pub best_fit-Fits :
    (q : Request) (rs : NodeResources)
    → (best_fit q rs).0 ≢ ""
    → Fits q rs (best_fit q rs).0 (best_fit q rs).1
unfolding best_fit
best_fit-Fits q rs h = elim (best_of-In no_node (candidates q rs)) [
  | inl e ↦ absurd (h (ap (λ c. c.node_name) e))
  | inr m ↦
      All-In (FitsSome q rs) (candidates q rs) (best_of no_node (candidates q rs))
        (candidates-Fits q rs) m
]

Fits-named :
    (q : Request) (rs : NodeResources) (c : Candidate)
    → All (λ e. e.0 ≢ "") rs
    → Fits q rs c.node_name c.gpuid
    → c.node_name ≢ ""
Fits-named q rs c h (r, m, fits) = All-In (λ e. e.0 ≢ "") rs (c.node_name, r) h m

-- If it answers no node, although every node has a name, then each call of `tryBestNode` that was
-- made had a point of at least 2147483647.
pub best_fit-none :
    (q : Request) (rs : NodeResources)
    → All (λ e. e.0 ≢ "") rs
    → (best_fit q rs).0 ≡ ""
    → All (λ c. pos 2147483647 ≤ℤ c.point) (candidates q rs)
unfolding best_fit
best_fit-none q rs named e = elim (best_of-In no_node (candidates q rs)) [
  | inl start ↦
      subst (λ b. All (λ c. b.point ≤ℤ c.point) (candidates q rs)) start
        (best_of-least no_node (candidates q rs))
  | inr m ↦ absurd (
      Fits-named q rs (best_of no_node (candidates q rs)) named
        (All-In (FitsSome q rs) (candidates q rs) (best_of no_node (candidates q rs))
          (candidates-Fits q rs) m)
        e)
]
