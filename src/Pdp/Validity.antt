-- ===== src/Pdp/Validity.antt =====
-- The invariant of a tier and of the decision point, and that the operations on a tier keep it.
use clusterlink.Common.{
  String, true, false, ◌≡◌, refl, ◌⊎◌, inl, inr, none, List, [], ◌∷◌, ok, All, arith, str_eq,
  eq_iff, Bool-cases,
}
use clusterlink.Common.Maps.{
  lookup, delete, All-delete, All-insert, IsDistinct, lookup-delete, lookup-insert,
  IsDistinct-delete, IsDistinct-insert, delete_absent,
}
use clusterlink.Crds.Names.{NamespacedName, name_eq}
use clusterlink.Crds.Policies.{
  AsSelector, WorkloadSetOrSelector, AccessPolicySpec, action_allow, action_deny, validate_item,
  validate_list, validate,
}
use clusterlink.Pdp.Matching.{deny}
use clusterlink.Pdp.Tiers.{PolicyTier, Pdp, unsafe_delete_policy, add_policy}
use clusterlink.Pdp.Matches.{Converts, IsConvertible}
use clusterlink.Pdp.Decisions.{verdict}
use clusterlink.Pdp.Precedence.{IsSorted}

verdict_deny : (action : String) → str_eq action action_deny ≡ true → verdict action ≡ deny
verdict_deny action h = rw ((eq_iff action action_deny).0 h) refl

module _ {R : Type 0} (as_selector : AsSelector R) where
  validate_item-Converts :
      (w : WorkloadSetOrSelector R) → validate_item as_selector w ≡ ok tt → Converts as_selector w
  unfolding validate_item
  validate_item-Converts w h = ground arith

  validate_list-Converts :
      (ws : List (WorkloadSetOrSelector R))
      → validate_list as_selector ws ≡ ok tt
      → All (Converts as_selector) ws
  unfolding validate_list
  validate_list-Converts [] h = tt
  validate_list-Converts (w ∷ ws) h =
      (validate_item-Converts w (ground arith), validate_list-Converts ws (ground arith))

  -- A spec that `Validate` accepts has a known action, and each of its selectors converts.
  pub validate_sound :
      (p : AccessPolicySpec R)
      → validate as_selector p ≡ ok tt
      → IsConvertible as_selector p × ((p.action ≡ action_allow) ⊎ (p.action ≡ action_deny))
  unfolding validate
  validate_sound p h = (
    (validate_list-Converts p.from (ground arith), validate_list-Converts p.to (ground arith)),
    ground (arith, eq_iff p.action action_allow, eq_iff p.action action_deny),
  )

  -- The two maps of a tier: sorted by action, and without a name that stands in both.
  pub record IsValidTier (pt : PolicyTier R) : Type 0 where
    pub sorted : IsSorted as_selector pt
    pub deny_distinct : IsDistinct pt.deny_policies
    pub allow_distinct : IsDistinct pt.allow_policies
    pub disjoint :
        (k : NamespacedName)
        → (lookup k pt.deny_policies ≡ none) ⊎ (lookup k pt.allow_policies ≡ none)

  pub record IsValidPdp (pdp : Pdp R) : Type 0 where
    pub privileged_valid : IsValidTier pdp.privileged_policies
    pub regular_valid : IsValidTier pdp.regular_policies
    pub privileged_flag : pdp.privileged_policies.privileged ≡ true
    pub regular_flag : pdp.regular_policies.privileged ≡ false

  -- The guards of the deletion change nothing: to delete a missing key has no effect.
  abbrev pub without : NamespacedName → PolicyTier R → PolicyTier R
  without k pt = record pt {
    deny_policies = delete k pt.deny_policies;
    allow_policies = delete k pt.allow_policies;
  }

  pub unsafe_delete_policy-without :
      (k : NamespacedName) (pt : PolicyTier R) → (unsafe_delete_policy k pt).0 ≡ without k pt
  unfolding unsafe_delete_policy
  unsafe_delete_policy-without k pt =
      ground (arith, delete_absent k pt.deny_policies, delete_absent k pt.allow_policies)

  pub without-IsValidTier :
      (k : NamespacedName) (pt : PolicyTier R) → IsValidTier pt → IsValidTier (without k pt)
  without-IsValidTier k pt v = record {
    sorted = record {
      denying = All-delete _ k pt.deny_policies v.sorted.denying;
      allowing = All-delete _ k pt.allow_policies v.sorted.allowing;
    };
    deny_distinct = IsDistinct-delete k pt.deny_policies v.deny_distinct;
    allow_distinct = IsDistinct-delete k pt.allow_policies v.allow_distinct;
    disjoint = λ j. ground (
      arith,
      lookup-delete k j pt.deny_policies,
      lookup-delete k j pt.allow_policies,
      v.disjoint j,
    );
  }

  pub add_policy-IsValidTier :
      (k : NamespacedName) (spec : AccessPolicySpec R) (pt : PolicyTier R)
      → validate as_selector spec ≡ ok tt
      → IsValidTier pt
      → IsValidTier (add_policy k spec pt)
  unfolding add_policy
  add_policy-IsValidTier k spec pt h v =
      let (converts, action) = validate_sound spec h in
      let w = without-IsValidTier k pt v in
      rw (unsafe_delete_policy-without k pt) (elim (Bool-cases (str_eq spec.action action_deny)) [
        | inl denies ↦ rw denies (record {
          sorted = record {
            denying =
                All-insert _ k spec (delete k pt.deny_policies)
                  (converts, verdict_deny spec.action denies) w.sorted.denying;
            allowing = w.sorted.allowing;
          };
          deny_distinct = IsDistinct-insert k spec _ w.deny_distinct;
          allow_distinct = w.allow_distinct;
          disjoint = λ j. ground (
            arith,
            lookup-delete k j pt.allow_policies,
            lookup-insert k j spec (delete k pt.deny_policies),
            w.disjoint j,
          );
        })
        | inr allows ↦ rw allows (record {
          sorted = record {
            denying = w.sorted.denying;
            allowing =
                All-insert _ k spec (delete k pt.allow_policies)
                  (
                    converts,
                    ground (arith, eq_iff spec.action action_allow, eq_iff spec.action action_deny),
                  )
                  w.sorted.allowing;
          };
          deny_distinct = w.deny_distinct;
          allow_distinct = IsDistinct-insert k spec _ w.allow_distinct;
          disjoint = λ j. ground (
            arith,
            lookup-delete k j pt.deny_policies,
            lookup-insert k j spec (delete k pt.allow_policies),
            w.disjoint j,
          );
        })
      ])
