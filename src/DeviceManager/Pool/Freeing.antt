-- ===== src/DeviceManager/Pool/Freeing.antt =====
-- The port that a removal gives back.
use faas_share.Common.{
  ℕ, ◌+◌, leb, String, pos, ◌-ℤ◌, true, ◌&&◌, not, ◌==◌, Option, some, some_inj, lookup,
  lookup-insert_self, Option-cases, ◌≡◌, ◌∙◌, refl, sym, ap, subst, inl, inr, arith,
}
use faas_share.Kube.{Float64}
use faas_share.Bitmap.{RrBitmap, is_masked, unmask, unmask_at, rr_unmask}
use faas_share.Bitmap.Laws.{is_masked-unmask}
use faas_share.DeviceManager.State.{port_start, PodRequest, GpuInfo, NodeInfo, State, set_node}
use faas_share.DeviceManager.Pool.Removal.{leave_gpu, remove_request}

pub rr_unmask-frees :
    (r free : RrBitmap) (k : ℕ)
    → rr_unmask r (pos k) ≡ some free
    → (q : ℕ) → is_masked free.bitmap q ≡ (not (k == q) && is_masked r.bitmap q)
unfolding rr_unmask unmask_at
rr_unmask-frees r free k h q = elim (Option-cases (unmask r.bitmap k)) [
  | inl e ↦ absurd (ground arith)
  | inr (b, e) ↦
      let same : rr_unmask r (pos k) ≡ some (record r { bitmap = b }) = rw (e, rr_unmask) refl in
      subst (λ (x : RrBitmap). is_masked x.bitmap q ≡ (not (k == q) && is_masked r.bitmap q))
        (some_inj (record r { bitmap = b }) free (sym same ∙ h)) (is_masked-unmask r.bitmap b k q e)
]

pub start_back : (k : ℕ) → pos (k + 50050) -ℤ pos 50050 ≡ pos k
unfolding ◌-ℤ◌
start_back k =
    let e : leb 50050 (k + 50050 + 0) ≡ true = ground arith in rw e (ap pos (omega arith))

module _ (fl : Float64) where
  -- A removal that comes through, of an entry with port 50050 + k, frees exactly position k in the
  -- bitmap of the node: any other position is taken as before.
  pub remove_request-frees :
      (name id : String) (p : PodRequest fl) (n : NodeInfo fl) (g : GpuInfo fl) (s t : State fl)
      (dummy : Option String) (k : ℕ)
      → p.port ≡ pos (k + 50050)
      → remove_request fl name id p n g s ≡ some (t, dummy)
      → (m : NodeInfo fl) × (lookup name t.nodes ≡ some m)
        × ((q : ℕ) → is_masked m.bitmap.bitmap q ≡ (not (k == q) && is_masked n.bitmap.bitmap q))
  unfolding remove_request set_node
  remove_request-frees name id p n g s t dummy k port done =
      let left = leave_gpu fl name id p n g s in
      elim (Option-cases (rr_unmask n.bitmap (p.port -ℤ port_start))) [
        | inl e ↦ absurd (ground arith)
        | inr (free, e) ↦
            let m = record left.0 { bitmap = free } in
            let u = set_node fl name m left.1.1 in
            let same : remove_request fl name id p n g s ≡ some (u, left.1.0) =
              rw (e, remove_request) refl in
            let eq =
              ap (λ (x : State fl × Option String). x.0)
                (some_inj (u, left.1.0) (t, dummy) (sym same ∙ done)) in
            let at : p.port -ℤ port_start ≡ pos k = ap (λ x. x -ℤ port_start) port ∙ start_back k in
            (
              m,
              subst (λ (x : State fl). lookup name x.nodes ≡ some m) eq
                  (lookup-insert_self name m left.1.1.nodes),
              rr_unmask-frees n.bitmap free k (subst (λ x. rr_unmask n.bitmap x ≡ some free) at e),
            )
      ]
