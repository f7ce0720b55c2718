-- ===== src/Scheduler/BestFit/Choice.antt =====
-- What the sequence of `tryBestNode` calls leaves, in whatever order the goroutines make them.
use faas_share.Common.{
  ℤ, ◌≤ℤ◌, ◌≡◌, refl, subst, sym, ◌∙◌, ◌⊎◌, inl, inr, Bool-cases, List, [], ◌∷◌, arith, All, All-In,
  In, ltb_ℤ, true, ◌≢◌, str_eq, str_eq_iff, ◌&&◌, ap,
}
use faas_share.Scheduler.BestFit.{Candidate, no_node, try_best_node, best_of}

abbrev AtMost : ℤ → Candidate → Type 0
AtMost p c = p ≤ℤ c.point

try_best_node-le : (b c : Candidate) → (try_best_node b c).point ≤ℤ b.point
unfolding try_best_node
try_best_node-le b c = ground arith

try_best_node-le_new : (b c : Candidate) → (try_best_node b c).point ≤ℤ c.point
unfolding try_best_node
try_best_node-le_new b c = ground arith

best_of-le : (b : Candidate) (cs : List Candidate) → (best_of b cs).point ≤ℤ b.point
unfolding best_of
best_of-le b [] = omega arith
best_of-le b (c ∷ cs) = omega (arith, best_of-le (try_best_node b c) cs, try_best_node-le b c)

-- No candidate has a smaller point than the one that is left.
pub best_of-least :
    (b : Candidate) (cs : List Candidate) → All (λ c. (best_of b cs).point ≤ℤ c.point) cs
unfolding best_of
best_of-least b [] = tt
best_of-least b (c ∷ cs) = (
  omega (arith, best_of-le (try_best_node b c) cs, try_best_node-le_new b c),
  best_of-least (try_best_node b c) cs,
)

try_best_node-cases : (b c : Candidate) → (try_best_node b c ≡ b) ⊎ (try_best_node b c ≡ c)
unfolding try_best_node
try_best_node-cases b c = elim (Bool-cases (ltb_ℤ c.point b.point)) [
  | inl e ↦ inr (rw e)
  | inr e ↦ inl (rw e)
]

-- What is left is the start or one of the candidates.
pub best_of-In : (b : Candidate) (cs : List Candidate) → (best_of b cs ≡ b) ⊎ In (best_of b cs) cs
unfolding best_of
best_of-In b [] = inl refl
best_of-In b (c ∷ cs) = elim (best_of-In (try_best_node b c) cs) [
  | inr m ↦ inr (inr m)
  | inl e ↦ elim (try_best_node-cases b c) [
    | inl old ↦ inl (e ∙ old)
    | inr new ↦ inr (inl (e ∙ new))
  ]
]

≤ℤ_antisym : (a b : ℤ) → a ≤ℤ b → b ≤ℤ a → a ≡ b
≤ℤ_antisym a b h g = ground arith

best_of-le_of_In :
    (cs ds : List Candidate)
    → ((c : Candidate) → In c ds → In c cs)
    → (best_of no_node cs).point ≤ℤ (best_of no_node ds).point
best_of-le_of_In cs ds sub = elim (best_of-In no_node ds) [
  | inl e ↦ subst (λ c. (best_of no_node cs).point ≤ℤ c.point) (sym e) (best_of-le no_node cs)
  | inr m ↦
      All-In (λ c. (best_of no_node cs).point ≤ℤ c.point) cs (best_of no_node ds)
        (best_of-least no_node cs) (sub (best_of no_node ds) m)
]

ltb_trans : (x y z : ℤ) → ltb_ℤ x y ≡ true → ltb_ℤ y z ≡ true → ltb_ℤ x z ≡ true
ltb_trans x y z h g = ground arith

ltb_irrefl : (x y : ℤ) → x ≡ y → ltb_ℤ x y ≡ true → ⊥
ltb_irrefl x y e h = ground arith

-- The start, or one of the candidates with less points.
abbrev Less : Candidate → List Candidate → Candidate → Type 0
Less b cs x = (x ≡ b) ⊎ (In x cs × (ltb_ℤ x.point b.point ≡ true))

best_of-Less : (b : Candidate) (cs : List Candidate) → Less b cs (best_of b cs)
unfolding best_of try_best_node
best_of-Less b [] = inl refl
best_of-Less b (c ∷ cs) = elim (Bool-cases (ltb_ℤ c.point b.point)) [
  | inl less ↦
      let new : best_of b (c ∷ cs) ≡ best_of c cs = rw (less, best_of, try_best_node) refl in
      subst (Less b (c ∷ cs)) (sym new) (elim (best_of-Less c cs) [
        | inl e ↦ inr (inl e, rw e less)
        | inr (m, l) ↦ inr (inr m, ltb_trans (best_of c cs).point c.point b.point l less)
      ])
  | inr more ↦
      let old : best_of b (c ∷ cs) ≡ best_of b cs = rw (more, best_of, try_best_node) refl in
      subst (Less b (c ∷ cs)) (sym old)
        (elim (best_of-Less b cs) [ inl e ↦ inl e | inr (m, l) ↦ inr (inr m, l) ])
]

-- Two runs leave the same candidate, or two different ones of their calls with the same points.
abbrev pub SameOrTied : List Candidate → List Candidate → Type 0
SameOrTied cs ds =
    let b = best_of no_node cs in
    let d = best_of no_node ds in
    All (λ c. b.point ≤ℤ c.point) cs
    × (b.point ≡ d.point)
    × ((b ≡ d) ⊎ (In b cs × In d cs × (b ≢ d)))

Candidate-eta :
    (b c : Candidate) → b.node_name ≡ c.node_name → b.gpuid ≡ c.gpuid → b.point ≡ c.point → b ≡ c
Candidate-eta b c name id point =
    subst (λ n. b ≡ record { node_name = n; gpuid = c.gpuid; point = c.point }) name
      (subst (λ i. b ≡ record { node_name = b.node_name; gpuid = i; point = c.point }) id
        (subst (λ q. b ≡ record { node_name = b.node_name; gpuid = b.gpuid; point = q }) point
          refl))

Candidate-cases : (b c : Candidate) → b.point ≡ c.point → (b ≡ c) ⊎ (b ≢ c)
Candidate-cases b c e =
    elim (Bool-cases (str_eq b.node_name c.node_name && str_eq b.gpuid c.gpuid)) [
      | inl same ↦ inl (
          Candidate-eta b c (ground (arith, str_eq_iff b.node_name c.node_name))
            (ground (arith, str_eq_iff b.gpuid c.gpuid)) e)
      | inr other ↦ inr (λ q.
          let name : b.node_name ≡ c.node_name = ap (λ (x : Candidate). x.node_name) q in
          let id : b.gpuid ≡ c.gpuid = ap (λ (x : Candidate). x.gpuid) q in
          absurd (
            ground
              (arith, str_eq_iff b.node_name c.node_name, str_eq_iff b.gpuid c.gpuid, name, id)))
    ]

-- Take two runs that make the same calls, each in its own order and as often as it likes. They
-- leave the same points, and no call has less. They leave the same node and GPU, too, unless two
-- different calls tie with these points: then both answers are among the calls, and the order
-- decides.
pub best_of-order :
    (cs ds : List Candidate)
    → ((c : Candidate) → In c cs → In c ds)
    → ((c : Candidate) → In c ds → In c cs)
    → SameOrTied cs ds
best_of-order cs ds there back =
    let b = best_of no_node cs in
    let d = best_of no_node ds in
    let same =
      ≤ℤ_antisym (best_of no_node cs).point (best_of no_node ds).point (best_of-le_of_In cs ds back)
        (best_of-le_of_In ds cs there) in
    (
      best_of-least no_node cs,
      same,
      elim (Candidate-cases b d same) [
        | inl e ↦ inl e
        | inr ne ↦ elim (best_of-Less no_node cs) [
          | inl e ↦ elim (best_of-Less no_node ds) [
            | inl f ↦ absurd (ne (e ∙ sym f))
            | inr (m, l) ↦
                absurd (
                  ltb_irrefl d.point no_node.point (sym same ∙ ap (λ (x : Candidate). x.point) e) l)
          ]
          | inr (m, l) ↦ elim (best_of-Less no_node ds) [
            | inl f ↦
                absurd
                  (ltb_irrefl b.point no_node.point (same ∙ ap (λ (x : Candidate). x.point) f) l)
            | inr (k, _) ↦ inr (m, back d k, ne)
          ]
        ]
      ],
    )
