-- ===== src/Scheduler/Filters/Laws.antt =====
-- Which GPUs each filter leaves to the search.
use faas_share.Common.{
  ℕ, ◌+◌, ◌-◌, String, ◌≡◌, refl, subst, sym, ap, ◌∙◌, ◌↔◌, inl, inr, Bool-cases, List, [], ◌∷◌,
  arith, Bool, true, false, some, In, Map, lookup, keep, str_eq, str_eq_iff, is_empty,
  if◌then◌else◌,
}
use faas_share.Kube.{Pod}
use faas_share.Scheduler.Resources.{
  GpuInfo, NodeResource, NodeResources, affinity_key, anti_affinity_key,
}
use faas_share.Scheduler.Filters.{
  on_gpus, has_tag, affine, not_anti_affine, affinity_filter, anti_affinity_filter, exclude_gpus,
  no_tags, has_other_tag,
}

-- A node of this name offers this GPU.
abbrev pub Offers : NodeResources → String → String → GpuInfo → Type 0
Offers rs name id g = (r : NodeResource) × In (name, r) rs × In (id, g) r.gpu_free

module _ (f : String × GpuInfo → Bool) where
  keep_hit :
      (gs : Map GpuInfo) (x : String × GpuInfo) → f x ≡ true → keep f (x ∷ gs) ≡ x ∷ keep f gs
  keep_hit gs x h = rw (h, keep)

  keep_miss : (gs : Map GpuInfo) (x : String × GpuInfo) → f x ≡ false → keep f (x ∷ gs) ≡ keep f gs
  keep_miss gs x h = rw (h, keep)

  In-of_keep : (gs : Map GpuInfo) (e : String × GpuInfo) → In e (keep f gs) → In e gs × (f e ≡ true)
  In-of_keep [] e m = elim m [ ]
  In-of_keep (x ∷ gs) e m = elim (Bool-cases (f x)) [
    | inl yes_x ↦ elim (subst (In e) (keep_hit gs x yes_x) m) [
      | inl same ↦ (inl same, ap f same ∙ yes_x)
      | inr later ↦ let (n, t) = In-of_keep gs e later in (inr n, t)
    ]
    | inr no_x ↦
        let n : In e (keep f gs) = subst (In e) (keep_miss gs x no_x) m in
        let (later, t) = In-of_keep gs e n in (inr later, t)
  ]

  In-keep : (gs : Map GpuInfo) (e : String × GpuInfo) → In e gs → f e ≡ true → In e (keep f gs)
  In-keep [] e m t = elim m [ ]
  In-keep (x ∷ gs) e (inl same) t =
      let kept : f x ≡ true = sym (ap f same) ∙ t in
      subst (In e) (sym (keep_hit gs x kept)) (inl same)
  In-keep (x ∷ gs) e (inr later) t = elim (Bool-cases (f x)) [
    | inl yes_x ↦ subst (In e) (sym (keep_hit gs x yes_x)) (inr (In-keep gs e later t))
    | inr no_x ↦ subst (In e) (sym (keep_miss gs x no_x)) (In-keep gs e later t)
  ]

  Offers-of_keep :
      (rs : NodeResources) (name id : String) (g : GpuInfo)
      → Offers (on_gpus (keep f) rs) name id g
      → Offers rs name id g × (f (id, g) ≡ true)
  unfolding on_gpus
  Offers-of_keep [] name id g (r, m, n) = elim m [ ]
  Offers-of_keep ((k, s) ∷ rs) name id g (r, inl e, n) =
      let gpus : r.gpu_free ≡ keep f s.gpu_free =
        ap (λ (x : String × NodeResource). x.1.gpu_free) e in
      let (there, t) = In-of_keep s.gpu_free (id, g) (subst (In (id, g)) gpus n) in
      ((s, inl (ap (λ (x : String × NodeResource). (x.0, s)) e), there), t)
  Offers-of_keep ((k, s) ∷ rs) name id g (r, inr later, n) =
      let ((q, m, l), t) = Offers-of_keep rs name id g (r, later, n) in ((q, inr m, l), t)

  Offers-keep :
      (rs : NodeResources) (name id : String) (g : GpuInfo)
      → Offers rs name id g
      → f (id, g) ≡ true
      → Offers (on_gpus (keep f) rs) name id g
  unfolding on_gpus
  Offers-keep [] name id g (r, m, n) t = elim m [ ]
  Offers-keep ((k, s) ∷ rs) name id g (r, inl e, n) t =
      let gpus : r.gpu_free ≡ s.gpu_free = ap (λ (x : String × NodeResource). x.1.gpu_free) e in
      (
        record s { gpu_free = keep f s.gpu_free },
        inl (
            ap (λ (x : String × NodeResource). (x.0, record s { gpu_free = keep f s.gpu_free })) e),
        In-keep s.gpu_free (id, g) (subst (In (id, g)) gpus n) t,
      )
  Offers-keep ((k, s) ∷ rs) name id g (r, inr later, n) t =
      let (q, m, l) = Offers-keep rs name id g (r, later, n) t in (q, inr m, l)

In-of_has_tag : (t : String) (ts : List String) → has_tag t ts ≡ true → In t ts
In-of_has_tag t [] h = absurd (cc)
In-of_has_tag t (u ∷ ts) h = elim (Bool-cases (str_eq t u)) [
  | inl same ↦ inl ((str_eq_iff t u).0 same)
  | inr other ↦ inr (In-of_has_tag t ts (rw other at h))
]

has_tag-In : (t : String) (ts : List String) → In t ts → has_tag t ts ≡ true
has_tag-In t [] m = elim m [ ]
has_tag-In t (u ∷ ts) (inl e) = rw ((str_eq_iff t u).1 e)
has_tag-In t (u ∷ ts) (inr m) = ground (arith, has_tag-In t ts m)

-- A pod with an affinity tag is offered exactly the GPUs that already carry the tag.
pub affinity_filter-Offers :
    (p : Pod) (rs : NodeResources) (t name id : String) (g : GpuInfo)
    → lookup affinity_key p.annotations ≡ some t
    → Offers (affinity_filter p rs) name id g ↔ (Offers rs name id g × In t g.affinity_tags)
unfolding affinity_filter
affinity_filter-Offers p rs t name id g e =
    subst (λ qs. Offers qs name id g ↔ (Offers rs name id g × In t g.affinity_tags))
      (let same : on_gpus (keep (affine t)) rs ≡ affinity_filter p rs = ground arith in same)
      (
        λ o.
            let (old, tagged) = Offers-of_keep (affine t) rs name id g o in
            (old, In-of_has_tag t g.affinity_tags tagged),
        λ (old, m). Offers-keep (affine t) rs name id g old (has_tag-In t g.affinity_tags m),
      )

-- A pod with an anti-affinity tag is offered exactly the GPUs that do not carry the tag.
pub anti_affinity_filter-Offers :
    (p : Pod) (rs : NodeResources) (t name id : String) (g : GpuInfo)
    → lookup anti_affinity_key p.annotations ≡ some t
    → Offers (anti_affinity_filter p rs) name id g
      ↔ (Offers rs name id g × (¬ In t g.anti_affinity_tags))
unfolding anti_affinity_filter
anti_affinity_filter-Offers p rs t name id g e =
    subst (λ qs. Offers qs name id g ↔ (Offers rs name id g × (¬ In t g.anti_affinity_tags)))
      (let same : on_gpus (keep (not_anti_affine t)) rs ≡ anti_affinity_filter p rs =
          ground arith in
        same)
      (
        λ o.
            let (old, tagged) = Offers-of_keep (not_anti_affine t) rs name id g o in
            (old, λ m. let there = has_tag-In t g.anti_affinity_tags m in cc (there, tagged)),
        λ (old, m).
            Offers-keep (not_anti_affine t) rs name id g old
              (elim (Bool-cases (has_tag t g.anti_affinity_tags)) [
                | inl there ↦ absurd (m (In-of_has_tag t g.anti_affinity_tags there))
                | inr absent ↦ rw absent
              ]),
      )

-- The GPUs that carry no exclusion tag.
abbrev pub untagged : Map GpuInfo → ℕ
untagged [] = 0
untagged ((id, g) ∷ gs) = (if no_tags g.exclusion_tags then 1 else 0) + untagged gs

has_other_tag_none :
    (t : String) (ts : List String) → no_tags ts ≡ true → has_other_tag t ts ≡ false
has_other_tag_none t [] h = refl
has_other_tag_none t (u ∷ ts) h = cc

-- For a pod with an exclusion tag the filter removes one GPU without tags, the first that the
-- loop visits, and keeps all others of them, because its `break` ends the loop over the GPUs.
pub untagged-exclude_gpus :
    (t : String) (gs : Map GpuInfo)
    → is_empty t ≡ false
    → untagged (exclude_gpus t gs) ≡ untagged gs - 1
unfolding exclude_gpus
untagged-exclude_gpus t [] h = refl
untagged-exclude_gpus t ((id, g) ∷ gs) h =
    ground (arith, has_other_tag_none t g.exclusion_tags, untagged-exclude_gpus t gs h)
