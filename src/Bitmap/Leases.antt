-- ===== src/Bitmap/Leases.antt =====
-- The ports of a node over any run of requests: the round-robin bitmap is a set of leases.
use faas_share.Common.{
  ℕ, ◌==◌, ◌<◌, Bool, true, false, not, ◌&&◌, ◌||◌, Option, none, some, List, [], ◌∷◌, ℤ, pos,
  negsuc, any, keep, All, if◌then◌else◌, Bool-cases, Option-cases, ◌≡◌, ◌∙◌, refl, sym, ap, subst,
  inl, inr, arith,
}
use faas_share.Bitmap.{
  Bitmap64, RrBitmap, is_masked, unmask, unmask_at, rr_unmask, new_rr, no_bits,
  find_next_from_current_and_set,
}
use faas_share.Bitmap.Laws.{is_masked-unmask, is_masked-past}
use faas_share.Bitmap.RoundRobin.{
  IsValid, Answer, find_next_from_current_and_set-Answer, Answer-IsValid,
}

-- A client takes a port, or gives one back.
pub data Request : Type 0 where
  acquire : Request
  release : ℕ → Request

pub record Leases : Type 0 where
  pub ports : RrBitmap
  pub held : List ℕ

abbrev pub holds : List ℕ → ℕ → Bool
holds held q = any (λ k. k == q) held

abbrev pub without : ℕ → List ℕ → List ℕ
without k held = keep (λ j. not (k == j)) held

abbrev pub after_search : List ℕ → RrBitmap × ℤ → Leases
after_search held (r, pos k) = record { ports = r; held = k ∷ held }
after_search held (r, negsuc n) = record { ports = r; held = held }

abbrev pub after_release : ℕ → List ℕ → Option RrBitmap → Option Leases
after_release k held none = none
after_release k held (some r) = some (record { ports = r; held = without k held })

-- A request; a port that the client does not hold is not given back, and `none` is a panic.
unfoldable pub serve : Request → Leases → Option Leases
serve acquire s = some (after_search s.held (find_next_from_current_and_set s.ports))
serve (release k) s =
    let released = after_release k s.held (rr_unmask s.ports (pos k)) in
    if holds s.held k then released else some s

unfoldable pub serve_all : List Request → Leases → Option Leases
unfolding serve
serve_all [] s = some s
serve_all (q ∷ qs) s = elim (serve q s) [ none ↦ none | some t ↦ serve_all qs t ]

abbrev pub Distinct : List ℕ → Type 0
Distinct [] = Unit
Distinct (k ∷ ks) = (holds ks k ≡ false) × Distinct ks

-- The bitmap is the set of the ports that are held, each once and below l.
pub record IsLeased (l : ℕ) (s : Leases) : Type 0 where
  pub size : s.ports.l ≡ l
  pub valid : IsValid s.ports
  pub taken : (q : ℕ) → is_masked s.ports.bitmap q ≡ holds s.held q
  pub distinct : Distinct s.held
  pub below : All (λ k. k < l) s.held

holds-without : (k q : ℕ) (ks : List ℕ) → holds (without k ks) q ≡ (not (k == q) && holds ks q)
holds-without k q [] = ground arith
holds-without k q (j ∷ ks) = elim (Bool-cases (k == j)) [
  | inl e ↦ rw (e, keep) (ground (arith, holds-without k q ks, e))
  | inr e ↦ rw (e, keep) (ground (arith, holds-without k q ks, e))
]

Distinct-without : (k : ℕ) (ks : List ℕ) → Distinct ks → Distinct (without k ks)
Distinct-without k [] d = tt
Distinct-without k (j ∷ ks) d = elim (Bool-cases (k == j)) [
  | inl e ↦ rw (e, keep) (Distinct-without k ks d.1)
  | inr e ↦ rw (e, keep) (holds-without k j ks ∙ rw d.0 (ground arith), Distinct-without k ks d.1)
]

All-without : (P : ℕ → Type 0) (k : ℕ) (ks : List ℕ) → All P ks → All P (without k ks)
All-without P k [] a = tt
All-without P k (j ∷ ks) a = elim (Bool-cases (k == j)) [
  | inl e ↦ rw (e, keep) (All-without P k ks a.1)
  | inr e ↦ rw (e, keep) (a.0, All-without P k ks a.1)
]

search-IsLeased :
    (l : ℕ) (held : List ℕ) (r : RrBitmap) (a : RrBitmap × ℤ)
    → IsLeased l (record { ports = r; held = held })
    → Answer r a
    → IsLeased l (after_search held a)
search-IsLeased l held r (s, pos k) leased ans =
    let (inside, free, takes, cursor, len) = ans in
    record {
      size = len ∙ leased.size;
      valid = Answer-IsValid r (s, pos k) leased.valid ans;
      taken = λ q. takes q ∙ ap (λ b. (k == q) || b) (leased.taken q);
      distinct = (sym (leased.taken k) ∙ free, leased.distinct);
      below = (subst (λ n. k < n) leased.size inside, leased.below);
    }
search-IsLeased l held r (s, negsuc n) leased ans =
    let (_, same, _) = ans in
    subst (λ x. IsLeased l (record { ports = x; held = held })) (sym same) leased

unmask-some : (b : Bitmap64) (k : ℕ) → is_masked b k ≡ true → (c : Bitmap64) × (unmask b k ≡ some c)
unfolding is_masked unmask
unmask-some b k e = elim (Option-cases (unmask b k)) [
  | inl panics ↦ absurd (ground (arith, e, panics))
  | inr made ↦ made
]

release-IsLeased :
    (l k : ℕ) (s : Leases)
    → IsLeased l s
    → holds s.held k ≡ true
    → (t : Leases) × (after_release k s.held (rr_unmask s.ports (pos k)) ≡ some t) × IsLeased l t
unfolding rr_unmask unmask_at
release-IsLeased l k s leased has =
    let (c, e) = unmask-some s.ports.bitmap k (leased.taken k ∙ has) in
    (
      record { ports = record s.ports { bitmap = c }; held = without k s.held },
      rw (e, rr_unmask) refl,
      record {
        size = leased.size;
        valid = leased.valid;
        taken = λ q.
            is_masked-unmask s.ports.bitmap c k q e
            ∙ ap (λ b. not (k == q) && b) (leased.taken q)
            ∙ sym (holds-without k q s.held);
        distinct = Distinct-without k s.held leased.distinct;
        below = All-without (λ j. j < l) k s.held leased.below;
      },
    )

serve-IsLeased :
    (l : ℕ) (q : Request) (s : Leases)
    → IsLeased l s
    → (t : Leases) × (serve q s ≡ some t) × IsLeased l t
unfolding serve
serve-IsLeased l acquire s leased = (
  after_search s.held (find_next_from_current_and_set s.ports),
  refl,
  search-IsLeased l s.held s.ports (find_next_from_current_and_set s.ports) leased
      (find_next_from_current_and_set-Answer s.ports leased.valid),
)
serve-IsLeased l (release k) s leased = elim (Bool-cases (holds s.held k)) [
  | inr lacks ↦ (s, rw (lacks, serve) refl, leased)
  | inl has ↦ let (t, e, kept) = release-IsLeased l k s leased has in (t, rw (has, serve) e, kept)
]

serve_all-IsLeased :
    (l : ℕ) (qs : List Request) (s : Leases)
    → IsLeased l s
    → (t : Leases) × (serve_all qs s ≡ some t) × IsLeased l t
unfolding serve_all
serve_all-IsLeased l [] s leased = (s, refl, leased)
serve_all-IsLeased l (q ∷ qs) s leased =
    let (t, e, kept) = serve-IsLeased l q s leased in
    let (u, f, done) = serve_all-IsLeased l qs t kept in (u, rw (e, serve_all) f, done)

-- A client that takes ports from a new bitmap of l ports and gives back only ports that it holds:
-- whatever the requests are, none of them panics, and at the end the bitmap is the set of the ports
-- that the client holds, all of them different and below l.
pub serve_all-new :
    (l : ℕ) (qs : List Request)
    → (s : Leases) × (serve_all qs (record { ports = new_rr l; held = [] }) ≡ some s)
      × ((q : ℕ) → is_masked s.ports.bitmap q ≡ holds s.held q)
      × Distinct s.held
      × All (λ k. k < l) s.held
unfolding new_rr
serve_all-new l qs =
    let (s, e, leased) =
      serve_all-IsLeased l qs (record { ports = new_rr l; held = [] })
        (record {
          size = refl;
          valid = omega arith;
          taken = λ q. is_masked-past no_bits q (omega arith);
          distinct = tt;
          below = tt;
        }) in
    (s, e, leased.taken, leased.distinct, leased.below)
