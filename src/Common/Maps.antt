-- ===== src/Common/Maps.antt =====
-- Go's `map[K]V` as a list of its entries. The list's order is the order in which a `range` loop
-- meets the entries, so what is proved for every list holds for every order that Go may choose.
use mathlib.Core.Path.{◌≡◌, refl}
use mathlib.Core.Logic.{inl, inr}
use mathlib.Core.Bool.{true}
use mathlib.Core.Option.{Option, none, some}
use mathlib.Core.List.{List, [], ◌∷◌}
use native.Mathlib.Omega.{arith}
use clusterlink.Common.Tests.{if◌then◌else◌, Bool-cases}
use clusterlink.Common.Lists.{All}
use clusterlink.Common.Eqs.{MapKey, ◌==◌, ==_refl}

abbrev pub Map {ℓ κ} : Type ℓ → Type κ → Type (ℓ ⊔ κ)
Map K V = List (K × V)

module _ {ℓ κ} {K : Type ℓ} {V : Type κ} ⦃e : MapKey K⦄ where
  -- v, ok := m[k]
  unfoldable pub lookup : K → Map K V → Option V
  lookup k [] = none
  lookup k ((j, v) ∷ m) = if j == k then some v else lookup k m

  -- delete(m, k)
  unfoldable pub delete : K → Map K V → Map K V
  delete k [] = []
  delete k ((j, v) ∷ m) = let rest = delete k m in if j == k then rest else (j, v) ∷ rest

  -- m[k] = v
  unfoldable pub insert : K → V → Map K V → Map K V
  unfolding delete
  insert k v m = (k, v) ∷ delete k m

  pub lookup-delete :
      (k j : K) (m : Map K V) → lookup j (delete k m) ≡ (if k == j then none else lookup j m)
  unfolding lookup delete
  lookup-delete k j [] = ground arith
  lookup-delete k j ((i, v) ∷ m) =
      ground
        (arith, lookup-delete k j m, e.same_key_iff i k, e.same_key_iff i j, e.same_key_iff k j)

  pub lookup-insert :
      (k j : K) (v : V) (m : Map K V)
      → lookup j (insert k v m) ≡ (if k == j then some v else lookup j m)
  unfolding lookup insert
  lookup-insert k j v m = simp lookup-delete (ground arith)

  pub lookup-insert_self : (k : K) (v : V) (m : Map K V) → lookup k (insert k v m) ≡ some v
  lookup-insert_self k v m = simp (lookup-insert, ==_refl k)

  -- No two entries with one key.
  abbrev pub IsDistinct : Map K V → Type (ℓ ⊔ κ)
  IsDistinct [] = Unit
  IsDistinct ((k, v) ∷ m) = (lookup k m ≡ none) × IsDistinct m

  pub IsDistinct-delete : (k : K) (m : Map K V) → IsDistinct m → IsDistinct (delete k m)
  unfolding lookup delete
  IsDistinct-delete k [] d = tt
  IsDistinct-delete k ((j, v) ∷ m) d =
      ground (arith, lookup-delete k j m, IsDistinct-delete k m d.1)

  pub IsDistinct-insert : (k : K) (v : V) (m : Map K V) → IsDistinct m → IsDistinct (insert k v m)
  unfolding insert
  IsDistinct-insert k v m d =
      (ground (arith, lookup-delete k k m, e.same_key_iff k k), IsDistinct-delete k m d)

  pub delete_absent : (k : K) (m : Map K V) → lookup k m ≡ none → delete k m ≡ m
  unfolding lookup delete
  delete_absent k [] h = refl
  delete_absent k ((j, v) ∷ m) h = ground (arith, delete_absent k m)

  module _ {μ} (P : K × V → Type μ) where
    pub All-delete : (k : K) (m : Map K V) → All P m → All P (delete k m)
    unfolding delete
    All-delete k [] h = tt
    All-delete k ((j, v) ∷ m) h = elim (Bool-cases (j == k)) [
      | inl same ↦ rw same (All-delete k m h.1)
      | inr other ↦ rw other (h.0, All-delete k m h.1)
    ]

    pub All-insert : (k : K) (v : V) (m : Map K V) → P (k, v) → All P m → All P (insert k v m)
    unfolding insert
    All-insert k v m p h = (p, All-delete k m h)

    pub All-lookup : (k : K) (v : V) (m : Map K V) → All P m → lookup k m ≡ some v → P (k, v)
    unfolding lookup
    All-lookup k v [] h e' = cc
    All-lookup k v ((j, w) ∷ m) h found = elim (Bool-cases (j == k)) [
      | inl same ↦ rw (← ((e.same_key_iff j k).0 same)) (rw (← entry same) h.0)
      | inr other ↦ All-lookup k v m h.1 (ground arith)
    ]
      where
        entry : (j == k) ≡ true → w ≡ v
        entry same = ground arith

pub ruleset map_laws = (lookup-delete, lookup-insert)
