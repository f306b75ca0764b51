-- ===== src/Pdp/Histories.antt =====
-- The invariant of the decision point, over every history of additions and deletions.
use clusterlink.Common.{
  String, Bool, true, false, ◌≡◌, refl, inl, inr, List, [], ◌∷◌, Result, ok, err, Result-cases,
  arith, if◌then◌else◌, ◌≢◌, ◌↔◌,
}
use clusterlink.Common.Maps.{lookup}
use clusterlink.Crds.Names.{NamespacedName, name_eq}
use clusterlink.Crds.Policies.{AsSelector, AccessPolicySpec, PolicyError, validate}
use clusterlink.Pdp.Matching.{WorkloadAttrs, undecided, allow}
use clusterlink.Pdp.Tiers.{
  PolicyTier, Pdp, AccessPolicy, DestinationDecision, new_pdp, unsafe_delete_policy, add_policy,
  delete_policy, add_or_update_policy, pdp_delete_policy, decide,
}
use clusterlink.Pdp.Decisions.{Permitted}
use clusterlink.Pdp.Precedence.{decide-allow_iff}
use clusterlink.Pdp.Validity.{
  IsValidTier, IsValidPdp, unsafe_delete_policy-without, without-IsValidTier,
  add_policy-IsValidTier,
}

module _ {R : Type 0} (as_selector : AsSelector R) where
  new_pdp-IsValidPdp : IsValidPdp as_selector new_pdp
  unfolding new_pdp
  new_pdp-IsValidPdp = record {
    privileged_valid = empty;
    regular_valid = empty;
    privileged_flag = refl;
    regular_flag = refl;
  }
    where
      empty :
          {b : Bool}
          → IsValidTier as_selector
              (record { privileged = b; deny_policies = []; allow_policies = [] })
      empty = record {
        sorted = record { denying = tt; allowing = tt };
        deny_distinct = tt;
        allow_distinct = tt;
        disjoint = λ k. inl (unfold lookup in refl);
      }

  -- What the controllers ask of the decision point.
  pub data Change : Type 0 where
    add_or_update : AccessPolicy R → Change
    remove : NamespacedName → Bool → Change

  abbrev kept : Pdp R → Result PolicyError (Pdp R) → Pdp R
  kept pdp (ok pdp') = pdp'
  kept pdp (err e) = pdp

  -- A refused policy changes nothing.
  pub apply_change : Pdp R → Change → Pdp R
  apply_change pdp (add_or_update policy) = kept pdp (add_or_update_policy as_selector policy pdp)
  apply_change pdp (remove k privileged) = (pdp_delete_policy k privileged pdp).0

  pub apply_changes : Pdp R → List Change → Pdp R
  apply_changes pdp [] = pdp
  apply_changes pdp (c ∷ cs) = apply_changes (apply_change pdp c) cs

  add_policy-privileged :
      (k : NamespacedName) (spec : AccessPolicySpec R) (pt : PolicyTier R)
      → (add_policy k spec pt).privileged ≡ pt.privileged
  unfolding add_policy unsafe_delete_policy
  add_policy-privileged k spec pt = ground arith

  -- What AddOrUpdatePolicy does with a policy that `Validate` accepts.
  added-IsValidPdp :
      (b : Bool) (k : NamespacedName) (spec : AccessPolicySpec R) (pdp : Pdp R)
      → validate as_selector spec ≡ ok tt
      → IsValidPdp as_selector pdp
      → IsValidPdp as_selector (
          if b
          then record pdp { privileged_policies = add_policy k spec pdp.privileged_policies }
          else record pdp { regular_policies = add_policy k spec pdp.regular_policies })
  added-IsValidPdp true k spec pdp h v = record {
    privileged_valid =
        add_policy-IsValidTier as_selector k spec pdp.privileged_policies h v.privileged_valid;
    regular_valid = v.regular_valid;
    privileged_flag = rw add_policy-privileged v.privileged_flag;
    regular_flag = v.regular_flag;
  }
  added-IsValidPdp false k spec pdp h v = record {
    privileged_valid = v.privileged_valid;
    regular_valid =
        add_policy-IsValidTier as_selector k spec pdp.regular_policies h v.regular_valid;
    privileged_flag = v.privileged_flag;
    regular_flag = rw add_policy-privileged v.regular_flag;
  }

  pub add_or_update_policy-IsValidPdp :
      (policy : AccessPolicy R) (pdp : Pdp R)
      → IsValidPdp as_selector pdp
      → IsValidPdp as_selector (kept pdp (add_or_update_policy as_selector policy pdp))
  unfolding add_or_update_policy
  add_or_update_policy-IsValidPdp policy pdp v =
      elim (Result-cases (validate as_selector policy.spec)) [
        | inl (_, e) ↦
            rw (e, add_or_update_policy)
              (added-IsValidPdp policy.privileged policy.name policy.spec pdp e v)
        | inr (_, e) ↦ rw (e, add_or_update_policy) v
      ]

  pub pdp_delete_policy-IsValidPdp :
      (k : NamespacedName) (privileged : Bool) (pdp : Pdp R)
      → IsValidPdp as_selector pdp
      → IsValidPdp as_selector (pdp_delete_policy k privileged pdp).0
  unfolding pdp_delete_policy delete_policy
  pdp_delete_policy-IsValidPdp k true pdp v =
      rw (unsafe_delete_policy-without as_selector k pdp.privileged_policies) (record {
        privileged_valid =
            without-IsValidTier as_selector k pdp.privileged_policies v.privileged_valid;
        regular_valid = v.regular_valid;
        privileged_flag = v.privileged_flag;
        regular_flag = v.regular_flag;
      })
  pdp_delete_policy-IsValidPdp k false pdp v =
      rw (unsafe_delete_policy-without as_selector k pdp.regular_policies) (record {
        privileged_valid = v.privileged_valid;
        regular_valid = without-IsValidTier as_selector k pdp.regular_policies v.regular_valid;
        privileged_flag = v.privileged_flag;
        regular_flag = v.regular_flag;
      })

  apply_changes-IsValidPdp :
      (pdp : Pdp R) (cs : List Change)
      → IsValidPdp as_selector pdp
      → IsValidPdp as_selector (apply_changes pdp cs)
  unfolding apply_changes apply_change
  apply_changes-IsValidPdp pdp [] v = v
  apply_changes-IsValidPdp pdp (add_or_update policy ∷ cs) v =
      apply_changes-IsValidPdp (apply_change pdp (add_or_update policy)) cs
        (add_or_update_policy-IsValidPdp policy pdp v)
  apply_changes-IsValidPdp pdp (remove k privileged ∷ cs) v =
      apply_changes-IsValidPdp (apply_change pdp (remove k privileged)) cs
        (pdp_delete_policy-IsValidPdp k privileged pdp v)

  -- After any additions and deletions, accepted or refused, each policy stands in the map of its
  -- action, its selectors convert, and in a tier no name stands in two entries.
  pub history-IsValidPdp : (cs : List Change) → IsValidPdp as_selector (apply_changes new_pdp cs)
  history-IsValidPdp cs = apply_changes-IsValidPdp new_pdp cs new_pdp-IsValidPdp

  -- So after any additions and deletions a decision is made without an error and is not left
  -- open, and it is "allow" exactly where the precedence of tiers and actions permits.
  pub history-decide :
      (name_string : NamespacedName → String) (cs : List Change) (src dest : WorkloadAttrs)
      (ns : String)
      → let pdp = apply_changes new_pdp cs in
        (d : DestinationDecision) × (decide as_selector name_string src dest ns pdp ≡ ok d)
        × (d.decision ≢ undecided)
        × ((d.decision ≡ allow) ↔ Permitted as_selector src dest ns pdp)
  history-decide name_string cs src dest ns =
      let v = history-IsValidPdp cs in
      decide-allow_iff as_selector name_string src dest ns _ v.privileged_valid.sorted
        v.regular_valid.sorted
