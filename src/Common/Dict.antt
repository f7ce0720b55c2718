-- ===== src/Common/Dict.antt =====
-- Go maps with string keys, as association lists. The order of the list stands for the order in
-- which a `range` loop visits the map, which Go leaves open.
use Prim.Native.String.{String}
use mathlib.Core.Path.{◌≡◌, refl, subst}
use mathlib.Core.Logic.{inl, inr}
use mathlib.Core.List.{List, [], ◌∷◌}
use mathlib.Core.Option.{Option, none, some}
use native.Mathlib.Omega.{arith}
use faas_share.Common.Tests.{str_eq, str_eq_iff, str_eq_refl, Bool-cases, if◌then◌else◌}

abbrev pub Map {ℓ} : Type ℓ → Type ℓ
Map V = List (String × V)

module _ {ℓ} {V : Type ℓ} where
  unfoldable pub lookup : String → Map V → Option V
  lookup k [] = none
  lookup k ((j, v) ∷ m) = if str_eq j k then some v else lookup k m

  unfoldable pub insert : String → V → Map V → Map V
  insert k v [] = (k, v) ∷ []
  insert k v ((j, w) ∷ m) = if str_eq j k then (k, v) ∷ m else (j, w) ∷ insert k v m

  unfoldable pub erase : String → Map V → Map V
  erase k [] = []
  erase k ((j, v) ∷ m) = if str_eq j k then erase k m else (j, v) ∷ erase k m

  pub lookup-insert :
      (k j : String) (v : V) (m : Map V)
      → lookup j (insert k v m) ≡ (if str_eq k j then some v else lookup j m)
  unfolding lookup insert
  lookup-insert k j v [] = refl
  lookup-insert k j v ((i, w) ∷ m) =
      ground (arith, str_eq_iff k j, str_eq_iff i k, str_eq_iff i j, lookup-insert k j v m)

  pub lookup-insert_self : (k : String) (v : V) (m : Map V) → lookup k (insert k v m) ≡ some v
  lookup-insert_self k v m = simp (lookup-insert, str_eq_refl)

  pub lookup-erase :
      (k j : String) (m : Map V) → lookup j (erase k m) ≡ (if str_eq k j then none else lookup j m)
  unfolding lookup erase
  lookup-erase k j [] = ground arith
  lookup-erase k j ((i, w) ∷ m) =
      ground (arith, str_eq_iff k j, str_eq_iff i k, str_eq_iff i j, lookup-erase k j m)

-- m[k] on a map of strings: the zero value "" for a missing key.
abbrev pub value_at : String → Map String → String
value_at k m = elim (lookup k m) [ none ↦ "" | some v ↦ v ]

-- A predicate on every value of a map.
abbrev pub Values {ℓ κ} : {V : Type ℓ} → (V → Type κ) → Map V → Type κ
Values P [] = Unit
Values P ((k, v) ∷ m) = P v × Values P m

module _ {ℓ κ} {V : Type ℓ} (P : V → Type κ) where
  pub Values-insert : (k : String) (v : V) (m : Map V) → P v → Values P m → Values P (insert k v m)
  unfolding insert
  Values-insert k v [] p h = (p, tt)
  Values-insert k v ((j, w) ∷ m) p h = elim (Bool-cases (str_eq j k)) [
    | inl e ↦ rw e (p, h.1)
    | inr e ↦ rw e (h.0, Values-insert k v m p h.1)
  ]

  pub Values-lookup : (k : String) (v : V) (m : Map V) → Values P m → lookup k m ≡ some v → P v
  unfolding lookup
  Values-lookup k v [] h e = absurd (cc e)
  Values-lookup k v ((j, w) ∷ m) h e = elim (Bool-cases (str_eq j k)) [
    | inl same ↦ let found : w ≡ v = ground arith in subst P found h.0
    | inr other ↦ Values-lookup k v m h.1 (ground arith)
  ]

module _ {ℓ κ μ} {V : Type ℓ} (P : V → Type κ) (Q : V → Type μ) where
  pub Values-map : (m : Map V) → ((v : V) → P v → Q v) → Values P m → Values Q m
  Values-map [] f h = tt
  Values-map ((k, v) ∷ m) f h = (f v h.0, Values-map m f h.1)
