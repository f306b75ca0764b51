-- ===== src/Samples/Policies.antt =====
-- The decision point on the sample policies.
use clusterlink.Common.{true, false, ◌≡◌, ◌≢◌, ◌↔◌, ◌⊎◌, inr, inl, refl, some, [], ◌∷◌, ok}
use clusterlink.Common.Maps.{lookup, IsDistinct}
use clusterlink.Crds.Names.{NamespacedName, name_eq}
use clusterlink.Crds.Policies.{validate, validate_list, validate_item, action_allow, action_deny}
use clusterlink.Pdp.Matching.{
  undecided, allow, deny, access_policy_decide, access_policy_matches,
  workload_set_or_selector_list_matches, workload_set_or_selector_matches,
}
use clusterlink.Pdp.Tiers.{
  Pdp, ConnPolicyMap, DestinationDecision, PolicyTier, new_pdp, decide, tier_decide, map_decide,
  get_policies,
}
use clusterlink.Pdp.Matches.{IsConvertible}
use clusterlink.Pdp.Decisions.{Permitted}
use clusterlink.Pdp.Aliasing.{get_policies_may_allow}
use clusterlink.Pdp.Precedence.{IsSorted, decide-allow_iff}
use clusterlink.Pdp.Validity.{IsValidPdp, validate_sound}
use clusterlink.Pdp.Histories.{apply_changes, history-IsValidPdp, history-decide}
use clusterlink.Samples.World.{
  labels_match, as_selector, name_string, object, allow_all, deny_west, to_west, to_east, history,
}

abbrev pdp : Pdp (Unit {0})
pdp = apply_changes as_selector new_pdp history

abbrev valid : IsValidPdp as_selector pdp
valid = history-IsValidPdp as_selector history

decide-allow_iff_example :
    (d : DestinationDecision) × (decide as_selector name_string [] to_west "default" pdp ≡ ok d)
    × (d.decision ≢ undecided)
    × ((d.decision ≡ allow) ↔ Permitted as_selector [] to_west "default" pdp)
decide-allow_iff_example =
    decide-allow_iff as_selector name_string [] to_west "default" pdp valid.privileged_valid.sorted
      valid.regular_valid.sorted

history-IsValidPdp_example : IsValidPdp as_selector pdp
history-IsValidPdp_example = history-IsValidPdp as_selector history

history-decide_example :
    (d : DestinationDecision) × (decide as_selector name_string [] to_east "default" pdp ≡ ok d)
    × (d.decision ≢ undecided)
    × ((d.decision ≡ allow) ↔ Permitted as_selector [] to_east "default" pdp)
history-decide_example = history-decide as_selector name_string history [] to_east "default"

validate_sound_example :
    IsConvertible as_selector deny_west
    × ((deny_west.action ≡ action_allow) ⊎ (deny_west.action ≡ action_deny))
unfolding validate validate_list validate_item
validate_sound_example = validate_sound as_selector deny_west refl

abbrev tier : PolicyTier (Unit {0})
tier = pdp.regular_policies

mixed : PolicyTier (Unit {0})
mixed = record {
  privileged = false;
  deny_policies = (object "west", deny_west) ∷ [];
  allow_policies = (object "open", allow_all) ∷ [];
}

start : DestinationDecision
start = record {
  destination = to_west;
  decision = undecided;
  matched_by = "";
  privileged_match = false;
}

-- Before the policies are read the tier denies the connection to the peer "west".
mixed_denies :
    tier_decide as_selector name_string [] start "default" mixed
    ≡ ok (
      true,
      record {
        destination = to_west;
        decision = deny;
        matched_by = "west";
        privileged_match = false;
      },
    )
unfolding mixed start tier_decide map_decide access_policy_decide access_policy_matches
    workload_set_or_selector_list_matches workload_set_or_selector_matches lookup
mixed_denies = refl

mixed-IsSorted : IsSorted as_selector mixed
unfolding mixed
mixed-IsSorted = record {
  denying = (((((labels_match [], refl), tt), ((labels_match to_west, refl), tt)), refl), tt);
  allowing = (((((labels_match [], refl), tt), ((labels_match [], refl), tt)), refl), tt);
}

one_deny : IsDistinct mixed.deny_policies
unfolding mixed lookup
one_deny = (refl, tt)

one_allow : IsDistinct mixed.allow_policies
unfolding mixed lookup
one_allow = (refl, tt)

open_held : lookup (object "open") mixed.allow_policies ≡ some allow_all
unfolding mixed lookup
open_held = refl

-- After they were read it may allow it.
get_policies_may_allow_example :
    let pt' = (get_policies mixed).0 in
    (order : ConnPolicyMap (Unit {0})) × IsDistinct order
    × ((j : NamespacedName) → lookup j order ≡ lookup j pt'.deny_policies)
    × (d : DestinationDecision) × (tier_decide as_selector name_string [] start "default"
          (record pt' { deny_policies = order })
        ≡ ok (true, d))
    × (d.decision ≡ allow)
unfolding mixed start
get_policies_may_allow_example =
    get_policies_may_allow as_selector name_string mixed (object "open") allow_all [] start
      "default" mixed-IsSorted one_deny one_allow open_held
      (inr refl, (inl (labels_match [], refl, refl), inl (labels_match [], refl, refl)))

mixed_pdp : Pdp (Unit {0})
unfolding mixed
mixed_pdp = record {
  privileged_policies = record { privileged = true; deny_policies = []; allow_policies = [] };
  regular_policies = mixed;
}

abbrev denied_west : DestinationDecision
denied_west = record {
  destination = to_west;
  decision = deny;
  matched_by = "west";
  privileged_match = false;
}
