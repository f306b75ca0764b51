-- ===== src/Pdp/Lookups.antt =====
-- Which policy a tier holds under a name after an addition or a deletion, and what reading the
-- policies does to the tier.
use clusterlink.Common.{◌≡◌, Option, none, some, arith, if◌then◌else◌, ◌==◌}
use clusterlink.Common.Maps.{lookup, delete, lookup-delete, lookup-insert}
use clusterlink.Crds.Names.{NamespacedName, name_eq}
use clusterlink.Crds.Policies.{AsSelector, AccessPolicySpec}
use clusterlink.Pdp.Tiers.{
  PolicyTier, failed_deleting, unsafe_delete_policy, add_policy, delete_policy,
}
use clusterlink.Pdp.Validity.{unsafe_delete_policy-without}

module _ {R : Type 0} (as_selector : AsSelector R) where
  -- The policy that stands under a name, whichever map it stands in.
  abbrev pub policy_of : NamespacedName → PolicyTier R → Option (AccessPolicySpec R)
  policy_of k pt = elim (lookup k pt.deny_policies) [
    | some spec ↦ some spec
    | none ↦ lookup k pt.allow_policies
  ]

  -- After an addition the name holds the new policy, whether its action was changed or not, and
  -- every other name holds what it held.
  pub policy_of-add_policy :
      (k j : NamespacedName) (spec : AccessPolicySpec R) (pt : PolicyTier R)
      → policy_of j (add_policy k spec pt) ≡ (if k == j then some spec else policy_of j pt)
  unfolding add_policy
  policy_of-add_policy k j spec pt = rw (unsafe_delete_policy-without as_selector k pt) (
      ground (
        arith,
        lookup-delete k j pt.deny_policies,
        lookup-delete k j pt.allow_policies,
        lookup-insert k j spec (delete k pt.deny_policies),
        lookup-insert k j spec (delete k pt.allow_policies),
      ))

  -- A deletion removes the named policy and no other, and fails exactly where the name holds none.
  pub delete_policy_lem :
      (k j : NamespacedName) (pt : PolicyTier R)
      → (policy_of j (delete_policy k pt).0 ≡ (if k == j then none else policy_of j pt))
        × ((delete_policy k pt).1
            ≡ elim (policy_of k pt) [ none ↦ some (failed_deleting k) | some v ↦ none ])
  unfolding delete_policy
  delete_policy_lem k j pt = (
    rw (unsafe_delete_policy-without as_selector k pt)
        (ground (arith, lookup-delete k j pt.deny_policies, lookup-delete k j pt.allow_policies)),
    (unfold unsafe_delete_policy in ground arith),
  )
