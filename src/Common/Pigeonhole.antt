-- ===== src/Common/Pigeonhole.antt =====
-- Counting the keys of a map whose keys are numbers below a bound.
use mathlib.Core.Path.{◌≡◌, ap, sym}
use mathlib.Core.Logic.{◌≢◌, inl, inr}
use mathlib.Core.Option.{none, some}
use mathlib.Core.List.{[], ◌∷◌}
use Prim.Native.Nat.{ℕ, zero, suc, ◌≤◌, ◌<◌}
use native.Mathlib.Omega.{arith}
use clusterlink.Common.Tests.{Bool-cases, Option-cases}
use clusterlink.Common.Lists.{length, All}
use clusterlink.Common.Eqs.{MapKey, ◌==◌, ℕ_eq}
use clusterlink.Common.Maps.{
  Map, lookup, insert, delete, IsDistinct, lookup-delete, IsDistinct-delete, All-delete,
  delete_absent,
}

module _ {ℓ κ} {K : Type ℓ} {V : Type κ} ⦃e : MapKey K⦄ where
  pub length-delete_present :
      (k : K) (v : V) (m : Map K V)
      → IsDistinct m
      → lookup k m ≡ some v
      → suc (length (delete k m)) ≡ length m
  unfolding lookup delete
  length-delete_present k v [] d h = cc
  length-delete_present k v ((j, w) ∷ m) d h = elim (Bool-cases (j == k)) [
    | inl same ↦ rw same (
        ap (λ (l : Map K V). suc (length l))
          (delete_absent k m (rw (sym ((e.same_key_iff j k).0 same)) d.0)))
    | inr other ↦ rw other (ap suc (length-delete_present k v m d.1 (ground arith)))
  ]

  pub length-insert_new :
      (k : K) (v : V) (m : Map K V) → lookup k m ≡ none → length (insert k v m) ≡ suc (length m)
  unfolding insert
  length-insert_new k v m h = ap (λ (l : Map K V). suc (length l)) (delete_absent k m h)

  pub length-insert_present :
      (k : K) (v w : V) (m : Map K V)
      → IsDistinct m
      → lookup k m ≡ some w
      → length (insert k v m) ≡ length m
  unfolding insert
  length-insert_present k v w m d h = length-delete_present k w m d h

module _ {ℓ} {V : Type ℓ} where
  abbrev pub Below : ℕ → Map ℕ V → Type 0
  Below n = All (λ (p : ℕ × V). p.0 < n)

  Below-pred : (n : ℕ) (m : Map ℕ V) → Below (suc n) m → lookup n m ≡ none → Below n m
  unfolding lookup
  Below-pred n [] h o = tt
  Below-pred n ((j, v) ∷ m) h o = (ground (arith, h.0), Below-pred n m h.1 (ground arith))

  lookup-delete_self : (k : ℕ) (m : Map ℕ V) → lookup k (delete k m) ≡ none
  lookup-delete_self k m = rw lookup-delete (ground arith)

  pub length-le : (n : ℕ) (m : Map ℕ V) → IsDistinct m → Below n m → length m ≤ n
  length-le zero [] d h = omega arith
  length-le zero (x ∷ m) d h = absurd (omega arith)
  length-le (suc n) m d h = elim (Option-cases (lookup n m)) [
    | inl out ↦ omega (arith, length-le n m d (Below-pred n m h out))
    | inr (v, found) ↦ omega (
      arith,
      length-delete_present n v m d found,
      length-le n (delete n m) (IsDistinct-delete n m d)
          (Below-pred n (delete n m) (All-delete _ n m h) (lookup-delete_self n m)),
    )
  ]

  -- A map in which every number below `n` is a key has at least `n` entries.
  pub le-length :
      (n : ℕ) (m : Map ℕ V) → IsDistinct m → ((i : ℕ) → i < n → lookup i m ≢ none) → n ≤ length m
  le-length zero m d all = omega arith
  le-length (suc n) m d all = elim (Option-cases (lookup n m)) [
    | inl out ↦ absurd (all n (omega arith) out)
    | inr (v, found) ↦ omega (
      arith,
      length-delete_present n v m d found,
      le-length n (delete n m) (IsDistinct-delete n m d)
          (λ i h o. all i (omega arith) (ground (arith, lookup-delete n i m, o))),
    )
  ]

  -- Where a number below `n` is no key, there are less than `n` entries.
  pub length_lt :
      (n i : ℕ) (m : Map ℕ V) → IsDistinct m → Below n m → i < n → lookup i m ≡ none → length m < n
  length_lt zero i m d b h out = absurd (omega arith)
  length_lt (suc n) i m d b h out = elim (Option-cases (lookup n m)) [
    | inl last_out ↦ omega (arith, length-le n m d (Below-pred n m b last_out))
    | inr (v, found) ↦
        let deleted_out : lookup i (delete n m) ≡ none = ground (arith, lookup-delete n i m) in
        let i_lt : i < n = ground arith in
        omega (
          arith,
          length-delete_present n v m d found,
          length_lt n i (delete n m) (IsDistinct-delete n m d)
              (Below-pred n (delete n m) (All-delete _ n m b) (lookup-delete_self n m)) i_lt
              deleted_out,
        )
  ]

  -- A map with `n` keys below `n` has them all.
  pub full_has :
      (n i : ℕ) (m : Map ℕ V)
      → IsDistinct m
      → Below n m
      → length m ≡ n
      → i < n
      → (v : V) × (lookup i m ≡ some v)
  full_has n i m d b full h = elim (Option-cases (lookup i m)) [
    | inl out ↦ absurd (omega (arith, length_lt n i m d b h out))
    | inr found ↦ found
  ]
