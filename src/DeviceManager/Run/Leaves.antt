-- ===== src/DeviceManager/Run/Leaves.antt =====
-- What a pod that leaves its GPU does to the lists, the ports and the bitmap of the node.
use faas_share.Common.{
  ℕ, ◌+◌, ◌≤◌, ◌==◌, String, ltb, length, ℤ, pos, negsuc, ◌-ℤ◌, false, none, some, some_inj, List,
  [], ◌∷◌, All, Map, lookup, insert, erase, List-cases, Values, str_eq, not, ◌&&◌, Bool-cases, ◌≡◌,
  ◌∙◌, refl, sym, ap, subst, ◌⊎◌, inl, inr, arith, Option-cases,
}
use faas_share.Kube.{Float64}
use faas_share.Bitmap.{RrBitmap, is_masked, rr_unmask, unmask_at}
use faas_share.DeviceManager.State.{port_start, PodRequest, GpuInfo, NodeInfo, State, set_gpu}
use faas_share.DeviceManager.Pool.{find_in_queue}
use faas_share.DeviceManager.Pool.Removal.{without_key, leave_gpu}
use faas_share.DeviceManager.Pool.Leaving.{left_with}
use faas_share.DeviceManager.Pool.Freeing.{rr_unmask-frees, start_back}
use faas_share.DeviceManager.Pool.Invariant.{DistinctKeys}
use faas_share.DeviceManager.Pool.Ports.{Taken}
use faas_share.DeviceManager.Run.Ports.{is_at, count_at, count_port}

module _ {V : Type 0} (Q : V → Type 0) where
  pub Values-erase : (id : String) (m : Map V) → Values Q m → Values Q (erase id m)
  unfolding erase
  Values-erase id [] h = tt
  Values-erase id ((j, v) ∷ m) h = elim (Bool-cases (str_eq j id)) [
    | inl e ↦ rw (e, erase) (Values-erase id m h.1)
    | inr e ↦ rw (e, erase) (h.0, Values-erase id m h.1)
  ]

module _ (fl : Float64) where
  -- The GPU is gone, or has the rest of its list.
  pub leave_gpu-cases :
      (id : String) (p : PodRequest fl) (n : NodeInfo fl) (g : GpuInfo fl) (s : State fl)
      (name : String)
      → ((leave_gpu fl name id p n g s).0 ≡ record n { gpus = erase id n.gpus })
        ⊎ ((leave_gpu fl name id p n g s).0 ≡ record n {
          gpus = insert id (left_with fl p g (without_key fl p.key g.pod_list)) n.gpus;
        })
  unfolding leave_gpu set_gpu
  leave_gpu-cases id p n g s name = elim (List-cases (without_key fl p.key g.pod_list)) [
    | inl e ↦ inl (rw (e, leave_gpu) refl)
    | inr (q, qs, e) ↦ inr (rw (e, leave_gpu) refl)
  ]

  module _ (P : PodRequest fl → Type 0) where
    pub All-without_key :
        (key : String) (ps : List (PodRequest fl)) → All P ps → All P (without_key fl key ps)
    unfolding without_key
    All-without_key key [] h = tt
    All-without_key key (p ∷ ps) h = elim (Bool-cases (str_eq p.key key)) [
      | inl e ↦ rw (e, without_key) h.1
      | inr e ↦ rw (e, without_key) (h.0, All-without_key key ps h.1)
    ]

    pub All-find_in_queue :
        (key : String) (p : PodRequest fl) (ps : List (PodRequest fl))
        → All P ps
        → find_in_queue fl key ps ≡ some p
        → P p
    unfolding find_in_queue
    All-find_in_queue key p [] h e = absurd (cc e)
    All-find_in_queue key p (q ∷ ps) h e = elim (Bool-cases (str_eq q.key key)) [
      | inl same ↦ let is : q ≡ p = ground arith in subst P is h.0
      | inr other ↦ All-find_in_queue key p ps h.1 (ground arith)
    ]

  find_in_queue-without_key-none :
      (k key : String) (ps : List (PodRequest fl))
      → find_in_queue fl k ps ≡ none
      → find_in_queue fl k (without_key fl key ps) ≡ none
  unfolding find_in_queue without_key
  find_in_queue-without_key-none k key [] h = refl
  find_in_queue-without_key-none k key (p ∷ ps) h =
      ground (arith, find_in_queue-without_key-none k key ps)

  pub DistinctKeys-without_key :
      (key : String) (ps : List (PodRequest fl))
      → DistinctKeys fl ps
      → DistinctKeys fl (without_key fl key ps)
  unfolding without_key
  DistinctKeys-without_key key [] h = tt
  DistinctKeys-without_key key (p ∷ ps) h = elim (Bool-cases (str_eq p.key key)) [
    | inl e ↦ rw (e, without_key) h.1
    | inr e ↦
        rw (e, without_key)
          (find_in_queue-without_key-none p.key key ps h.0, DistinctKeys-without_key key ps h.1)
  ]

  module _ (k : ℕ) where
    pub count_at-without_key :
        (p : PodRequest fl) (ps : List (PodRequest fl))
        → find_in_queue fl p.key ps ≡ some p
        → count_at fl k (without_key fl p.key ps) + count_at fl k (p ∷ []) ≡ count_at fl k ps
    unfolding find_in_queue without_key
    count_at-without_key p [] e = absurd (cc e)
    count_at-without_key p (q ∷ ps) e = elim (Bool-cases (str_eq q.key p.key)) [
      | inl same ↦
          let is : q ≡ p = ground arith in
          let ports : count_at fl k (q ∷ []) ≡ count_at fl k (p ∷ []) = rw is refl in
          rw (same, without_key) (omega (arith, ports))
      | inr other ↦
          let ih = count_at-without_key p ps (ground arith) in
          rw (other, without_key) (omega (arith, ih))
    ]

    count_port-erase_le :
        (id : String) (m : Map (GpuInfo fl)) → count_port fl k (erase id m) ≤ count_port fl k m
    unfolding erase
    count_port-erase_le id [] = omega arith
    count_port-erase_le id ((j, w) ∷ m) = elim (Bool-cases (str_eq j id)) [
      | inl same ↦ rw (same, erase) (omega (arith, count_port-erase_le id m))
      | inr other ↦ rw (other, erase) (omega (arith, count_port-erase_le id m))
    ]

    pub count_port-erase :
        (id : String) (g : GpuInfo fl) (m : Map (GpuInfo fl))
        → lookup id m ≡ some g
        → count_port fl k (erase id m) + count_at fl k g.pod_list ≤ count_port fl k m
    unfolding lookup erase
    count_port-erase id g [] e = absurd (cc e)
    count_port-erase id g ((j, w) ∷ m) e = elim (Bool-cases (str_eq j id)) [
      | inl same ↦
          let is : w ≡ g = ground arith in
          let counts : count_at fl k w.pod_list ≡ count_at fl k g.pod_list = rw is refl in
          rw (same, erase) (omega (arith, counts, count_port-erase_le id m))
      | inr other ↦ rw (other, erase) (omega (arith, count_port-erase id g m (ground arith)))
    ]

  -- A bitmap in which at most one position has been freed.
  module _ (b free : RrBitmap) (i : ℕ)
      (frees : (q : ℕ) → is_masked free.bitmap q ≡ (not (i == q) && is_masked b.bitmap q)) where
    Taken-freed : (port : ℤ) → is_at i port ≡ false → Taken b port → Taken free port
    Taken-freed port away (inl e) = inl e
    Taken-freed port away (inr (j, e, taken)) = elim (Bool-cases (i == j)) [
      | inl same ↦
          let at : is_at i (pos (j + 50050)) ≡ false = subst (λ x. is_at i x ≡ false) e away in
          absurd (ground arith)
      | inr other ↦ inr (j, e, frees j ∙ ground arith)
    ]

    All-Taken :
        (es : List (PodRequest fl))
        → count_at fl i es ≡ 0
        → All (λ (e : PodRequest fl). Taken b e.port) es
        → All (λ (e : PodRequest fl). Taken free e.port) es
    All-Taken [] gone h = tt
    All-Taken (e ∷ es) gone h = elim (Bool-cases (is_at i e.port)) [
      | inl at ↦ absurd (ground arith)
      | inr away ↦ (Taken-freed e.port away h.0, All-Taken es (omega (arith, gone)) h.1)
    ]

    pub Values-Taken :
        (gs : Map (GpuInfo fl))
        → count_port fl i gs ≡ 0
        → Values (λ (g : GpuInfo fl). All (λ (e : PodRequest fl). Taken b e.port) g.pod_list) gs
        → Values (λ (g : GpuInfo fl). All (λ (e : PodRequest fl). Taken free e.port) g.pod_list) gs
    Values-Taken [] gone h = tt
    Values-Taken ((id, g) ∷ gs) gone h =
        (All-Taken g.pod_list (omega (arith, gone)) h.0, Values-Taken gs (omega (arith, gone)) h.1)

-- Nothing is freed for the port before the first one.
pub rr_unmask-before :
    (r free : RrBitmap) (port : ℤ)
    → port ≡ pos 50049
    → rr_unmask r (port -ℤ port_start) ≡ some free
    → r ≡ free
unfolding rr_unmask unmask_at ◌-ℤ◌
rr_unmask-before r free port e h =
    let at : rr_unmask r (negsuc 0) ≡ some free =
      subst (λ x. rr_unmask r (x -ℤ port_start) ≡ some free) e h in
    elim (Bool-cases (ltb 0 (length r.bitmap.bits))) [
      | inl some_words ↦ some_inj r free (sym (rw (some_words, rr_unmask) refl) ∙ at)
      | inr no_words ↦ absurd (ground arith)
    ]

pub rr_unmask-port :
    (r free : RrBitmap) (port : ℤ) (i : ℕ)
    → port ≡ pos (i + 50050)
    → rr_unmask r (port -ℤ port_start) ≡ some free
    → (q : ℕ) → is_masked free.bitmap q ≡ (not (i == q) && is_masked r.bitmap q)
rr_unmask-port r free port i e h =
    let at : port -ℤ port_start ≡ pos i = ap (λ x. x -ℤ port_start) e ∙ start_back i in
    rr_unmask-frees r free i (subst (λ x. rr_unmask r x ≡ some free) at h)

-- The cursor stays where it is.
pub rr_unmask-cursor :
    (r free : RrBitmap) (x : ℤ)
    → rr_unmask r x ≡ some free
    → (free.current ≡ r.current) × (free.l ≡ r.l)
unfolding rr_unmask
rr_unmask-cursor r free x h = elim (Option-cases (unmask_at r.bitmap x)) [
  | inl e ↦ absurd (ground arith)
  | inr (b, e) ↦
      let same : rr_unmask r x ≡ some (record r { bitmap = b }) = rw (e, rr_unmask) refl in
      subst (λ (y : RrBitmap). (y.current ≡ r.current) × (y.l ≡ r.l))
        (some_inj (record r { bitmap = b }) free (sym same ∙ h)) (refl, refl)
]
