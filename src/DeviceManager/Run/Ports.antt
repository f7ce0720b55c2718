-- ===== src/DeviceManager/Run/Ports.antt =====
-- How often a port stands on the lists of a node.
use faas_share.Common.{
  ℕ, ◌+◌, ◌==◌, String, ℤ, pos, negsuc, Bool, true, false, none, some, List, [], ◌∷◌, ◌++◌, All,
  Map, keep, lookup, insert, Values, str_eq, if◌then◌else◌, Bool-cases, List-cases, ◌≡◌, refl, ap,
  subst, inl, inr, arith,
}
use faas_share.Kube.{Float64}
use faas_share.Bitmap.{RrBitmap, is_masked}
use faas_share.DeviceManager.State.{PodRequest, GpuInfo}
use faas_share.DeviceManager.Pool.Orphans.{is_used}
use faas_share.DeviceManager.Pool.Ports.{Taken}

-- Whether a port is the one at a position of the bitmap.
abbrev pub is_at : ℕ → ℤ → Bool
is_at k (pos n) = n == k + 50050
is_at k (negsuc n) = false

module _ (fl : Float64) (k : ℕ) where
  abbrev pub count_at : List (PodRequest fl) → ℕ
  count_at [] = 0
  count_at (e ∷ es) = (if is_at k e.port then 1 else 0) + count_at es

  -- How many requests on the lists of the GPUs have the port.
  abbrev pub count_port : Map (GpuInfo fl) → ℕ
  count_port [] = 0
  count_port ((id, g) ∷ gs) = count_at g.pod_list + count_port gs

  pub count_at-append :
      (es ds : List (PodRequest fl)) → count_at (es ++ ds) ≡ count_at es + count_at ds
  count_at-append [] ds = omega arith
  count_at-append (e ∷ es) ds = omega (arith, count_at-append es ds)

  pub count_port-insert_new :
      (id : String) (g : GpuInfo fl) (m : Map (GpuInfo fl))
      → lookup id m ≡ none
      → count_port (insert id g m) ≡ count_port m + count_at g.pod_list
  unfolding lookup insert
  count_port-insert_new id g [] h = omega arith
  count_port-insert_new id g ((j, w) ∷ m) h = elim (Bool-cases (str_eq j id)) [
    | inl same ↦ absurd (ground arith)
    | inr other ↦
        let ih = count_port-insert_new id g m (ground arith) in rw other (omega (arith, ih))
  ]

  pub count_port-insert :
      (id : String) (g g' : GpuInfo fl) (m : Map (GpuInfo fl))
      → lookup id m ≡ some g
      → count_port (insert id g' m) + count_at g.pod_list ≡ count_port m + count_at g'.pod_list
  unfolding lookup insert
  count_port-insert id g g' [] h = absurd (cc h)
  count_port-insert id g g' ((j, w) ∷ m) h = elim (Bool-cases (str_eq j id)) [
    | inl same ↦
        let is : w ≡ g = ground arith in
        let counts : count_at w.pod_list ≡ count_at g.pod_list = rw is refl in
        rw same (omega (arith, counts))
    | inr other ↦
        let ih = count_port-insert id g g' m (ground arith) in rw other (omega (arith, ih))
  ]

  -- A GPU without requests has no ports.
  pub count_port-keep : (gs : Map (GpuInfo fl)) → count_port (keep (is_used fl) gs) ≡ count_port gs
  count_port-keep [] = refl
  count_port-keep ((id, g) ∷ gs) = elim (List-cases g.pod_list) [
    | inl e ↦
        let unused : is_used fl (id, g) ≡ false = rw e refl in
        let none : count_at g.pod_list ≡ 0 = rw e refl in
        rw (unused, keep) (omega (arith, none, count_port-keep gs))
    | inr (p, ps, e) ↦
        let used : is_used fl (id, g) ≡ true = rw e refl in
        rw (used, keep) (ap (λ t. count_at g.pod_list + t) (count_port-keep gs))
  ]

  is_at-free :
      (b : RrBitmap) (port : ℤ) → is_masked b.bitmap k ≡ false → Taken b port → is_at k port ≡ false
  is_at-free b port free (inl e) = rw e (ground arith)
  is_at-free b port free (inr (j, e, taken)) = elim (Bool-cases (j == k)) [
    | inl same ↦
        let is : j ≡ k = ground arith in
        absurd (cc (free, subst (λ q. is_masked b.bitmap q ≡ true) is taken))
    | inr other ↦ rw e (ground arith)
  ]

  count_at-free :
      (b : RrBitmap) (es : List (PodRequest fl))
      → is_masked b.bitmap k ≡ false
      → All (λ (e : PodRequest fl). Taken b e.port) es
      → count_at es ≡ 0
  count_at-free b [] free h = refl
  count_at-free b (e ∷ es) free h =
      rw (is_at-free b e.port free h.0) (omega (arith, count_at-free b es free h.1))

  -- A position that is free is the port of no request.
  pub count_port-free :
      (b : RrBitmap) (gs : Map (GpuInfo fl))
      → is_masked b.bitmap k ≡ false
      → Values (λ (g : GpuInfo fl). All (λ (e : PodRequest fl). Taken b e.port) g.pod_list) gs
      → count_port gs ≡ 0
  count_port-free b [] free h = refl
  count_port-free b ((id, g) ∷ gs) free h =
      omega (arith, count_at-free b g.pod_list free h.0, count_port-free b gs free h.1)
