-- ===== src/Balancer/Trails.antt =====
-- The indices that the round-robin and static schemes leave behind: an arc of the circle of sources.
use clusterlink.Common.{
  ℕ, zero, suc, ◌+◌, ◌≤◌, ◌<◌, ◌≡◌, refl, none, [], ◌∷◌, arith, nat_eq, length, if◌then◌else◌, ℕ_eq,
  ap,
}
use clusterlink.Common.Maps.{Map, lookup, insert, delete_absent}
use clusterlink.Balancer.Random.{wrap}

-- The `k` indices from `start` on, the last one first.
abbrev pub arc : ℕ → ℕ → ℕ → Map ℕ (Unit {0})
arc start zero n = []
arc start (suc k) n = (wrap n (start + k), tt) ∷ arc start k n

module _ (start n : ℕ) (in_range : start < n) where
  pub length-arc : (k : ℕ) → length (arc start k n) ≡ k
  length-arc zero = refl
  length-arc (suc k) = ap suc (length-arc k)

  pub lookup-arc : (k m : ℕ) → k ≤ m → m < n → lookup (wrap n (start + m)) (arc start k n) ≡ none
  unfolding lookup
  lookup-arc zero m h l = refl
  lookup-arc (suc k) m h l = ground (arith, lookup-arc k m)

  -- To mark the next index makes the arc longer.
  pub insert-arc :
      (k : ℕ) → k < n → insert (wrap n (start + k)) tt (arc start k n) ≡ arc start (suc k) n
  unfolding insert
  insert-arc k h =
      ap (λ (l : Map ℕ (Unit {0})). (wrap n (start + k), tt) ∷ l)
        (delete_absent _ (arc start k n) (lookup-arc k k (omega arith) h))

  pub wrap_lt : (k : ℕ) → k < n → wrap n (start + k) < n
  wrap_lt k h = ground arith

  -- The step of the round-robin scheme.
  pub wrap-suc :
      (k : ℕ)
      → suc k < n
      → (if nat_eq (wrap n (start + k) + 1) n then 0 else wrap n (start + k) + 1)
        ≡ wrap n (start + suc k)
  wrap-suc k h = ground arith
