-- ===== src/Balancer/Random.antt =====
-- The random scheme: from any draw, its loop finds an index that was not tried, if there is one.
use clusterlink.Common.{
  ℕ, zero, suc, ◌+◌, ◌-◌, ◌≤◌, ◌<◌, ◌≡◌, ◌≢◌, inl, inr, none, some, arith, ltb, nat_eq, length,
  if◌then◌else◌, Option-cases, ℕ_eq, sym, subst,
}
use clusterlink.Common.Maps.{Map, lookup, IsDistinct}
use clusterlink.Common.Pigeonhole.{le-length}
use clusterlink.Balancer.Select.{random_loop}

-- An index that ran past the end, brought back as the code does it.
abbrev pub wrap : ℕ → ℕ → ℕ
wrap n x = if ltb x n then x else x - n

module _ (failed : Map ℕ (Unit {0})) (n : ℕ) where
  -- A chosen index is in range and was not tried.
  pub random_loop-some :
      (rounds index i : ℕ)
      → index < n
      → random_loop failed n rounds index ≡ some i
      → (i < n) × (lookup i failed ≡ none)
  unfolding random_loop
  random_loop-some zero index i h e = cc
  random_loop-some (suc rounds) index i h e =
      ground (arith, random_loop-some rounds (if nat_eq (index + 1) n then 0 else index + 1) i)

  shift :
      (index t : ℕ)
      → index < n
      → t < n
      → wrap n ((if nat_eq (index + 1) n then 0 else index + 1) + t) ≡ wrap n (index + suc t)
  shift index t h k = ground arith

  -- Where none is chosen, each index that the loop looked at was tried.
  random_loop-none :
      (rounds index t : ℕ)
      → index < n
      → rounds ≤ n
      → random_loop failed n rounds index ≡ none
      → t < rounds
      → lookup (wrap n (index + t)) failed ≢ none
  unfolding random_loop
  random_loop-none zero index t h k e l out = absurd (omega arith)
  random_loop-none (suc rounds) index zero h k e l out =
      let here : wrap n (index + 0) ≡ index = ground arith in
      ground (arith, subst (λ (x : ℕ). lookup x failed ≡ none) here out)
  random_loop-none (suc rounds) index (suc t) h k e l out =
      let next : ℕ = if nat_eq (index + 1) n then 0 else index + 1 in
      random_loop-none rounds next t (ground arith) (omega arith) (ground arith) (omega arith)
        (subst (λ (x : ℕ). lookup x failed ≡ none) (sym (shift index t h (omega arith))) out)

  -- With fewer tried indices than sources, one that was not tried is chosen.
  pub random_loop_finds :
      (draw : ℕ)
      → IsDistinct failed
      → draw < n
      → length failed < n
      → (i : ℕ) × (random_loop failed n n draw ≡ some i) × (i < n) × (lookup i failed ≡ none)
  random_loop_finds draw d h room = elim (Option-cases (random_loop failed n n draw)) [
    | inr (i, e) ↦ let (lt, out) = random_loop-some n draw i h e in (i, e, lt, out)
    | inl e ↦ absurd (
        omega (
          arith,
          le-length n failed d (λ i k out.
              random_loop-none n draw (if ltb i draw then i + n - draw else i - draw) h
                (omega arith) e (ground arith)
                (subst (λ (x : ℕ). lookup x failed ≡ none) (back draw i h k) out)),
        ))
  ]
    where
      back :
          (draw i : ℕ)
          → draw < n
          → i < n
          → i ≡ wrap n (draw + (if ltb i draw then i + n - draw else i - draw))
      back draw i h k = ground arith
