-- ===== src/Pdp/Tiers.antt =====
-- The policies of one tier and the decision point over two tiers (connectivity_pdp.go,
-- accesspolicy.go). The locks make each method one atomic step.
use clusterlink.Common.{
  String, Bool, true, false, not, ◌&&◌, ◌||◌, Option, none, some, List, [], ◌∷◌, ltb, str_eq,
  length, if◌then◌else◌, Result, ok, ◌>>=◌, ◌>>◌,
}
use clusterlink.Common.Maps.{Map, lookup, insert, delete}
use clusterlink.Crds.Names.{NamespacedName, name_eq}
use clusterlink.Crds.Policies.{
  AsSelector, LabelSelector, WorkloadSetOrSelector, AccessPolicySpec, PolicyError, validate,
  action_deny,
}
use clusterlink.Pdp.Matching.{WorkloadAttrs, Decision, undecided, allow, deny, access_policy_decide}

abbrev pub ConnPolicyMap : Type 0 → Type 0
ConnPolicyMap R = Map NamespacedName (AccessPolicySpec R)

pub record PolicyTier (R : Type 0) : Type 0 where
  pub privileged : Bool
  pub deny_policies : ConnPolicyMap R
  pub allow_policies : ConnPolicyMap R

pub record Pdp (R : Type 0) : Type 0 where
  pub privileged_policies : PolicyTier R
  pub regular_policies : PolicyTier R

-- `AccessPolicy` of accesspolicy.go.
pub record AccessPolicy (R : Type 0) : Type 0 where
  pub name : NamespacedName
  pub privileged : Bool
  pub spec : AccessPolicySpec R

pub record DestinationDecision : Type 0 where
  pub destination : WorkloadAttrs
  pub decision : Decision
  pub matched_by : String
  pub privileged_match : Bool

pub data DeleteError : Type 0 where
  failed_deleting : NamespacedName → DeleteError

abbrev pub default_deny_policy_name : String
default_deny_policy_name = "<default deny>"

module _ {R : Type 0} where
  unfoldable pub new_policy_tier : Bool → PolicyTier R
  new_policy_tier privileged = record {
    privileged = privileged;
    deny_policies = [];
    allow_policies = [];
  }

  unfoldable pub new_pdp : Pdp R
  unfolding new_policy_tier
  new_pdp = record {
    privileged_policies = new_policy_tier true;
    regular_policies = new_policy_tier false;
  }

  unfoldable pub policy_from_cr : NamespacedName → AccessPolicySpec R → AccessPolicy R
  policy_from_cr object spec = record {
    name = record { namespace = object.namespace; name = object.name };
    privileged = false;
    spec = spec;
  }

  unfoldable pub policy_from_privileged_cr : NamespacedName → AccessPolicySpec R → AccessPolicy R
  policy_from_privileged_cr object spec = record {
    name = record { namespace = ""; name = object.name };
    privileged = true;
    spec = spec;
  }

  is_in : NamespacedName → ConnPolicyMap R → Bool
  is_in k m = elim (lookup k m) [ none ↦ false | some v ↦ true ]

  -- The tier that the method leaves, and the error that it returns.
  unfoldable pub unsafe_delete_policy :
      NamespacedName → PolicyTier R → PolicyTier R × Option DeleteError
  unfolding is_in
  unsafe_delete_policy k pt =
      let ok_deny = is_in k pt.deny_policies in
      let ok_allow = is_in k pt.allow_policies in
      (
        record pt {
          deny_policies = if ok_deny then delete k pt.deny_policies else pt.deny_policies;
          allow_policies = if ok_allow then delete k pt.allow_policies else pt.allow_policies;
        },
        (if not ok_deny && not ok_allow then some (failed_deleting k) else none),
      )

  unfoldable pub add_policy : NamespacedName → AccessPolicySpec R → PolicyTier R → PolicyTier R
  add_policy k spec pt =
      let cleared = (unsafe_delete_policy k pt).0 in
      if str_eq spec.action action_deny
      then record cleared { deny_policies = insert k spec cleared.deny_policies }
      else record cleared { allow_policies = insert k spec cleared.allow_policies }

  unfoldable pub delete_policy : NamespacedName → PolicyTier R → PolicyTier R × Option DeleteError
  delete_policy k pt = unsafe_delete_policy k pt

  unfoldable pub insert_all :
      List (NamespacedName × AccessPolicySpec R) → ConnPolicyMap R → ConnPolicyMap R
  insert_all [] res = res
  insert_all ((k, v) ∷ rest) res = insert_all rest (insert k v res)

  -- `res := pt.denyPolicies` copies a reference: the loop writes into the tier's own map.
  unfoldable pub get_policies : PolicyTier R → PolicyTier R × ConnPolicyMap R
  unfolding insert_all
  get_policies pt =
      let res = insert_all pt.allow_policies pt.deny_policies in
      (record pt { deny_policies = res }, res)

  -- GetPolicies; GetPrivilegedPolicies does the same on the other tier.
  unfoldable pub get_regular_policies : Pdp R → Pdp R × List (NamespacedName × AccessPolicySpec R)
  get_regular_policies pdp =
      let (tier, pols) = get_policies pdp.regular_policies in
      (record pdp { regular_policies = tier }, pols)

  unfoldable pub get_privileged_policies :
      Pdp R → Pdp R × List (NamespacedName × AccessPolicySpec R)
  get_privileged_policies pdp =
      let (tier, pols) = get_policies pdp.privileged_policies in
      (record pdp { privileged_policies = tier }, pols)

  selector_depends : Option (LabelSelector R) → Bool
  selector_depends none = false
  selector_depends (some s) = ltb 0 (length s.match_expressions) || ltb 0 (length s.match_labels)

  any_depends : List (WorkloadSetOrSelector R) → Bool
  unfolding selector_depends
  any_depends [] = false
  any_depends (w ∷ ws) = selector_depends w.workload_selector || any_depends ws

  policies_depend : ConnPolicyMap R → Bool
  unfolding any_depends
  policies_depend [] = false
  policies_depend ((k, spec) ∷ rest) = any_depends spec.from || policies_depend rest

  tier_depends : PolicyTier R → Bool
  unfolding policies_depend
  tier_depends pt = policies_depend pt.deny_policies || policies_depend pt.allow_policies

  unfoldable pub depends_on_client_attrs : Pdp R → Bool
  unfolding tier_depends
  depends_on_client_attrs pdp =
      tier_depends pdp.privileged_policies || tier_depends pdp.regular_policies

module _ {R : Type 0} (as_selector : AsSelector R) where
  unfoldable pub add_or_update_policy : AccessPolicy R → Pdp R → Result PolicyError (Pdp R)
  add_or_update_policy policy pdp = do
    validate as_selector policy.spec
    ok (
        if policy.privileged
        then record pdp {
          privileged_policies = add_policy policy.name policy.spec pdp.privileged_policies;
        }
        else record pdp {
          regular_policies = add_policy policy.name policy.spec pdp.regular_policies;
        })

module _ {R : Type 0} where
  unfoldable pub pdp_delete_policy : NamespacedName → Bool → Pdp R → Pdp R × Option DeleteError
  pdp_delete_policy k privileged pdp =
      if privileged
      then (let (tier, error) = delete_policy k pdp.privileged_policies in
          (record pdp { privileged_policies = tier }, error))
      else (let (tier, error) = delete_policy k pdp.regular_policies in
          (record pdp { regular_policies = tier }, error))

module _ {R : Type 0} (as_selector : AsSelector R) (name_string : NamespacedName → String) where
  -- What one policy that decides leaves in the decision record.
  abbrev decided_by : NamespacedName → Bool → DestinationDecision → Decision → DestinationDecision
  decided_by k privileged dest d = record dest {
    decision = d;
    matched_by = name_string k;
    privileged_match = privileged;
  }

  -- The loop of `connPolicyMap.decide`: whether a policy decided, and the record it leaves.
  unfoldable pub map_decide :
      WorkloadAttrs
      → DestinationDecision
      → Bool
      → String
      → ConnPolicyMap R
      → Result String (Bool × DestinationDecision)
  map_decide src dest privileged ns [] = ok (false, dest)
  map_decide src dest privileged ns ((k, policy) ∷ rest) =
      let next = map_decide src dest privileged ns rest in
      if not privileged && not (str_eq k.namespace ns)
      then next
      else access_policy_decide as_selector policy src dest.destination >>= λ d. elim d [
        | undecided ↦ next
        | allow ↦ ok (true, decided_by k privileged dest allow)
        | deny ↦ ok (true, decided_by k privileged dest deny)
      ]

  unfoldable pub tier_decide :
      WorkloadAttrs
      → DestinationDecision
      → String
      → PolicyTier R
      → Result String (Bool × DestinationDecision)
  tier_decide src dest ns pt = do
    (decided, dest') ← map_decide src dest pt.privileged ns pt.deny_policies
    if decided then ok (true, dest') else map_decide src dest' pt.privileged ns pt.allow_policies

  unfoldable pub decide :
      WorkloadAttrs → WorkloadAttrs → String → Pdp R → Result String DestinationDecision
  decide src dest ns pdp = do
    let start : DestinationDecision = record {
      destination = dest;
      decision = undecided;
      matched_by = "";
      privileged_match = false;
    }
    (decided, d) ← tier_decide src start ns pdp.privileged_policies
    if decided then ok d else do
      (decided', d') ← tier_decide src d ns pdp.regular_policies
      if decided'
          then ok d'
          else ok (record d' {
            decision = deny;
            matched_by = default_deny_policy_name;
            privileged_match = false;
          })
