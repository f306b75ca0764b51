-- ===== src/Pdp/Matches.antt =====
-- What it means that a policy matches a connection, said without the loops of the code, and the
-- loops' agreement with it where every selector converts.
use clusterlink.Common.{
  String, Bool, true, false, ◌≡◌, refl, ◌⊎◌, inl, inr, List, [], ◌∷◌, Result, ok, ◌>>=◌, All, Any,
  arith,
}
use clusterlink.Crds.Policies.{AsSelector, WorkloadSetOrSelector, AccessPolicySpec}
use clusterlink.Pdp.Matching.{
  WorkloadAttrs, workload_set_or_selector_matches, workload_set_or_selector_list_matches,
  access_policy_matches,
}

-- A call that may fail returns, and tells whether `P` holds.
abbrev pub Answers : Result String Bool → Type 0 → Type 0
Answers r P = ((r ≡ ok true) × P) ⊎ ((r ≡ ok false) × (¬ P))

module _ {R : Type 0} (as_selector : AsSelector R) where
  abbrev pub Converts : WorkloadSetOrSelector R → Type 0
  Converts w = (f : WorkloadAttrs → Bool) × (as_selector w.workload_selector ≡ ok f)

  abbrev pub Selects : WorkloadAttrs → WorkloadSetOrSelector R → Type 0
  Selects attrs w =
      (f : WorkloadAttrs → Bool) × (as_selector w.workload_selector ≡ ok f) × (f attrs ≡ true)

  abbrev pub IsConvertible : AccessPolicySpec R → Type 0
  IsConvertible policy = All Converts policy.from × All Converts policy.to

  -- Some element of `from` selects the source, and some element of `to` the destination.
  abbrev pub Matches : WorkloadAttrs → WorkloadAttrs → AccessPolicySpec R → Type 0
  Matches src dest policy = Any (Selects src) policy.from × Any (Selects dest) policy.to

  item_answers :
      (w : WorkloadSetOrSelector R) (attrs : WorkloadAttrs)
      → Converts w
      → Answers (workload_set_or_selector_matches as_selector w attrs) (Selects attrs w)
  unfolding workload_set_or_selector_matches
  item_answers w attrs (f, e) = go (f attrs) refl
    where
      go :
          (b : Bool)
          → f attrs ≡ b
          → Answers (as_selector w.workload_selector >>= λ s. ok (s attrs)) (Selects attrs w)
      go true hit = inl (rw e (rw hit), (f, e, hit))
      go false miss = inr (rw e (rw miss), λ s. ground (arith, s.1, s.2))

  list_answers :
      (ws : List (WorkloadSetOrSelector R)) (attrs : WorkloadAttrs)
      → All Converts ws
      → Answers
          (workload_set_or_selector_list_matches as_selector ws attrs)
          (Any (Selects attrs) ws)
  unfolding workload_set_or_selector_list_matches
  list_answers [] attrs h = inr (refl, λ a. a)
  list_answers (w ∷ ws) attrs h = elim (item_answers w attrs h.0) [
    | inl (hit, s) ↦ inl (rw hit, inl s)
    | inr (miss, ns) ↦ elim (list_answers ws attrs h.1) [
      | inl (hit, s) ↦ inl (rw miss hit, inr s)
      | inr (miss', ns') ↦ inr (rw miss miss', elim [ inl s ↦ ns s | inr s ↦ ns' s ])
    ]
  ]

  pub access_policy_matches-answers :
      (policy : AccessPolicySpec R) (src dest : WorkloadAttrs)
      → IsConvertible policy
      → Answers (access_policy_matches as_selector policy src dest) (Matches src dest policy)
  unfolding access_policy_matches
  access_policy_matches-answers policy src dest h = elim (list_answers policy.from src h.0) [
    | inl (hit, s) ↦ elim (list_answers policy.to dest h.1) [
      | inl (hit', s') ↦ inl (rw hit hit', (s, s'))
      | inr (miss, ns) ↦ inr (rw hit miss, λ m. ns m.1)
    ]
    | inr (miss, ns) ↦ inr (rw miss, λ m. ns m.0)
  ]
