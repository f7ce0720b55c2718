-- ===== src/DeviceManager/Pool/Ports.antt =====
-- The ports that `getPhysicalGPUuuid` hands out of the bitmap of a node.
use faas_share.Common.{
  Values-map, All-In, ℕ, String, ℤ, pos, negsuc, ◌+ℤ◌, ◌+◌, ◌<◌, leb, true, false, some, List, [],
  ◌∷◌, lookup, Values, Values-insert, Values-lookup, All, All-append, All-map, In, ◌≡◌, ◌≢◌, refl,
  sym, ap, subst, ◌∙◌, ◌⊎◌, inl, inr, arith,
}
use faas_share.Kube.{Float64}
use faas_share.Bitmap.{RrBitmap, find_next_from_current_and_set, is_masked}
use faas_share.Bitmap.RoundRobin.{
  IsValid, Answer, find_next_from_current_and_set-Answer, find_next_from_current_and_set-IsValid,
}
use faas_share.DeviceManager.State.{PodRequest, GpuInfo, NodeInfo, State, set_gpu}
use faas_share.DeviceManager.Pool.{Claim, request_at, take_port, get_physical_gpu}
use faas_share.DeviceManager.Pool.Codes.{joined, opened}
use faas_share.DeviceManager.Pool.Invariant.{get_physical_gpu-Values}

-- A port of a bitmap: the start plus a position that is taken; or the port before the start,
-- which is what comes out where the search answers -1.
abbrev pub Taken : RrBitmap → ℤ → Type 0
Taken b port =
    (port ≡ pos 50049) ⊎ ((k : ℕ) × (port ≡ pos (k + 50050)) × (is_masked b.bitmap k ≡ true))

-- How the bitmap changes with a search: more positions are taken, none is freed.
abbrev Grows : RrBitmap → RrBitmap → Type 0
Grows b b' = (k : ℕ) → is_masked b.bitmap k ≡ true → is_masked b'.bitmap k ≡ true

Taken-Grows : (b b' : RrBitmap) (port : ℤ) → Grows b b' → Taken b port → Taken b' port
Taken-Grows b b' port grows (inl e) = inl e
Taken-Grows b b' port grows (inr (k, e, h)) = inr (k, e, grows k h)

-- What a search leaves, as a port.
abbrev pub PortAnswer : RrBitmap → RrBitmap × ℤ → Type 0
PortAnswer b (b', port) =
    Grows b b'
    × (((k : ℕ) × (port ≡ pos (k + 50050))
          × (k < b.l)
          × (is_masked b.bitmap k ≡ false)
          × (is_masked b'.bitmap k ≡ true))
        ⊎ ((port ≡ pos 50049) × ((q : ℕ) → q < b.l → is_masked b.bitmap q ≡ true)))

port_of-Answer : (b b' : RrBitmap) (x : ℤ) → Answer b (b', x) → PortAnswer b (b', x +ℤ pos 50050)
unfolding ◌+ℤ◌
port_of-Answer b b' (pos k) (below, free, masks, _, _) = (
  λ q h. rw (masks q, h) ground arith,
  inl (
    k,
    (let e : leb 0 (k + 50050) ≡ true = ground arith in rw e (ap pos (omega arith))),
    below,
    free,
    masks k ∙ ground arith,
  ),
)
port_of-Answer b b' (negsuc n) (e, same, full) = (
  λ k h. subst (λ (r : RrBitmap). is_masked r.bitmap k ≡ true) (sym same) h,
  inr (rw e refl, full),
)

module _ (fl : Float64) where
  pub take_port-PortAnswer :
      (n : NodeInfo fl)
      → IsValid n.bitmap
      → PortAnswer n.bitmap ((take_port fl n).0.bitmap, (take_port fl n).1)
  unfolding take_port
  take_port-PortAnswer n v =
      let f = find_next_from_current_and_set n.bitmap in
      port_of-Answer n.bitmap f.0 f.1 (find_next_from_current_and_set-Answer n.bitmap v)

  -- The ports that the lists of a node hold are taken in its bitmap.
  abbrev pub PortsTaken : NodeInfo fl → Type 0
  PortsTaken n =
      IsValid n.bitmap
      × Values (λ (g : GpuInfo fl). All (λ (e : PodRequest fl). Taken n.bitmap e.port) g.pod_list)
          n.gpus

  pub PortAnswer-Taken : (b : RrBitmap) (a : RrBitmap × ℤ) → PortAnswer b a → Taken a.0 a.1
  PortAnswer-Taken b (b', port) (grows, inl (k, e, _, _, taken)) = inr (k, e, taken)
  PortAnswer-Taken b (b', port) (grows, inr (e, full)) = inl e

  pub PortsTaken-set_gpu :
      (id : String) (n : NodeInfo fl) (g : GpuInfo fl)
      → PortsTaken n
      → All (λ (e : PodRequest fl). Taken (take_port fl n).0.bitmap e.port) g.pod_list
      → PortsTaken (set_gpu fl id g (take_port fl n).0)
  unfolding set_gpu take_port
  PortsTaken-set_gpu id n g (v, h) new =
      let b = (take_port fl n).0.bitmap in
      let grows = (take_port-PortAnswer n v).0 in
      (
        find_next_from_current_and_set-IsValid n.bitmap v,
        Values-insert (λ (g : GpuInfo fl). All (λ (e : PodRequest fl). Taken b e.port) g.pod_list)
            id g n.gpus new
            (Values-map
              (λ (g : GpuInfo fl). All (λ (e : PodRequest fl). Taken n.bitmap e.port) g.pod_list)
              (λ (g : GpuInfo fl). All (λ (e : PodRequest fl). Taken b e.port) g.pod_list) n.gpus
              (λ g l. old g.pod_list grows l) h),
      )
    where
      old :
          (ps : List (PodRequest fl))
          → Grows n.bitmap (take_port fl n).0.bitmap
          → All (λ (e : PodRequest fl). Taken n.bitmap e.port) ps
          → All (λ (e : PodRequest fl). Taken (take_port fl n).0.bitmap e.port) ps
      old ps grows l =
          All-map (λ (e : PodRequest fl). Taken n.bitmap e.port)
            (λ (e : PodRequest fl). Taken (take_port fl n).0.bitmap e.port) ps
            (λ e t. Taken-Grows n.bitmap (take_port fl n).0.bitmap e.port grows t) l

  take_port-Taken :
      (n : NodeInfo fl) → PortsTaken n → Taken (take_port fl n).0.bitmap (take_port fl n).1
  take_port-Taken n h =
      PortAnswer-Taken n.bitmap ((take_port fl n).0.bitmap, (take_port fl n).1)
        (take_port-PortAnswer n h.0)

  pub PortsTaken-opened :
      (id : String) (c : Claim fl) (n : NodeInfo fl)
      → PortsTaken n
      → PortsTaken (set_gpu fl id (opened fl c n) (take_port fl n).0)
  PortsTaken-opened id c n h = PortsTaken-set_gpu id n (opened fl c n) h (take_port-Taken n h, tt)

  pub PortsTaken-joined :
      (id : String) (c : Claim fl) (n : NodeInfo fl) (g : GpuInfo fl)
      → PortsTaken n
      → lookup id n.gpus ≡ some g
      → PortsTaken (set_gpu fl id (joined fl c n g) (take_port fl n).0)
  PortsTaken-joined id c n g h hg = PortsTaken-set_gpu id n (joined fl c n g) h (
      All-append (λ (e : PodRequest fl). Taken (take_port fl n).0.bitmap e.port) g.pod_list
        (request_at fl c (take_port fl n).1 ∷ []) grown (take_port-Taken n h, tt))
    where
      grown : All (λ (e : PodRequest fl). Taken (take_port fl n).0.bitmap e.port) g.pod_list
      grown =
          All-map (λ (e : PodRequest fl). Taken n.bitmap e.port)
            (λ (e : PodRequest fl). Taken (take_port fl n).0.bitmap e.port) g.pod_list
            (λ e t.
              Taken-Grows n.bitmap (take_port fl n).0.bitmap e.port (take_port-PortAnswer n h.0).0
                t)
            (Values-lookup
              (λ (g : GpuInfo fl). All (λ (e : PodRequest fl). Taken n.bitmap e.port) g.pod_list) id
              g n.gpus h.1 hg)

  -- A call keeps it so that every port on a list of a node is taken in the bitmap of the node
  -- (or is the port before the first one), and that the cursor of the bitmap is valid.
  pub get_physical_gpu-PortsTaken :
      (name id : String) (c : Claim fl) (port : ℤ) (s : State fl)
      → Values PortsTaken s.nodes
      → Values PortsTaken (get_physical_gpu fl name id c port s).0.nodes
  get_physical_gpu-PortsTaken name id c port s =
      get_physical_gpu-Values fl PortsTaken name id c port s (λ n h new. PortsTaken-opened id c n h)
        (λ n g h hg free fits. PortsTaken-joined id c n g h hg)

  pos-inj : (a b : ℕ) → pos a ≡ pos b → a ≡ b
  pos-inj a b e = cc e

  -- On a node where every listed port is taken, the next port is on no list of any GPU, unless it
  -- is the port before the first one, which comes out exactly when all positions are taken.
  pub take_port-fresh :
      (n : NodeInfo fl)
      → PortsTaken n
      → ((id : String) (g : GpuInfo fl) (e : PodRequest fl)
          → lookup id n.gpus ≡ some g
          → In e g.pod_list
          → e.port ≢ (take_port fl n).1)
        ⊎ (((take_port fl n).1 ≡ pos 50049)
            × ((q : ℕ) → q < n.bitmap.l → is_masked n.bitmap.bitmap q ≡ true))
  take_port-fresh n h = elim (take_port-PortAnswer n h.0).1 [
    | inr full ↦ inr full
    | inl (k, eq, below, free, taken) ↦ inl (λ id g e hg m same. other k eq free e.port same (
        All-In (λ (e : PodRequest fl). Taken n.bitmap e.port) g.pod_list e
          (Values-lookup
            (λ (g : GpuInfo fl). All (λ (e : PodRequest fl). Taken n.bitmap e.port) g.pod_list) id g
            n.gpus h.1 hg)
          m))
  ]
    where
      other :
          (k : ℕ)
          → (take_port fl n).1 ≡ pos (k + 50050)
          → is_masked n.bitmap.bitmap k ≡ false
          → (p : ℤ) → p ≡ (take_port fl n).1
          → Taken n.bitmap p
          → ⊥
      other k eq free p same (inl first) =
          let e : k + 50050 ≡ 50049 = pos-inj (k + 50050) 50049 (sym eq ∙ (sym same ∙ first)) in
          omega arith
      other k eq free p same (inr (j, ej, taken)) =
          let e : k + 50050 ≡ j + 50050 =
            pos-inj (k + 50050) (j + 50050) (sym eq ∙ (sym same ∙ ej)) in
          let kj : k ≡ j = omega arith in
          cc (free, subst (λ q. is_masked n.bitmap.bitmap q ≡ true) (sym kj) taken)
