-- ===== src/Samples/World.antt =====
-- A small installation: label selectors that compare labels, three policies, two peers.
use clusterlink.Common.{
  String, Bool, true, false, ◌&&◌, none, some, List, [], ◌∷◌, ok, str_eq, string_eq,
}
use clusterlink.Common.Maps.{Map, lookup}
use clusterlink.Crds.Names.{NamespacedName}
use clusterlink.Crds.Policies.{
  AsSelector, WorkloadSetOrSelector, AccessPolicySpec, action_allow, action_deny,
}
use clusterlink.Pdp.Tiers.{AccessPolicy}
use clusterlink.Pdp.Histories.{Change, add_or_update, remove}

-- A selector without expressions, matched label by label.
abbrev pub labels_match : Map String String → Map String String → Bool
labels_match [] attrs = true
labels_match ((k, v) ∷ rest) attrs =
    elim (lookup k attrs) [ none ↦ false | some w ↦ str_eq v w ] && labels_match rest attrs

abbrev pub as_selector : AsSelector (Unit {0})
as_selector none = ok (λ attrs. false)
as_selector (some s) = ok (labels_match s.match_labels)

abbrev pub name_string : NamespacedName → String
name_string k = k.name

abbrev pub object : String → NamespacedName
object name = record { namespace = "default"; name = name }

abbrev pub selecting : Map String String → WorkloadSetOrSelector (Unit {0})
selecting labels = record {
  workload_sets = [];
  workload_selector = some (record { match_labels = labels; match_expressions = [] });
}

abbrev pub everything : WorkloadSetOrSelector (Unit {0})
everything = selecting []

abbrev pub allow_all : AccessPolicySpec (Unit {0})
allow_all = record { action = action_allow; from = everything ∷ []; to = everything ∷ [] }

abbrev pub deny_west : AccessPolicySpec (Unit {0})
deny_west = record {
  action = action_deny;
  from = everything ∷ [];
  to = selecting (("peer.clusterlink.net/name", "west") ∷ []) ∷ [];
}

abbrev pub regular : String → AccessPolicySpec (Unit {0}) → AccessPolicy (Unit {0})
regular name spec = record { name = object name; privileged = false; spec = spec }

abbrev pub to_west : Map String String
to_west = ("peer.clusterlink.net/name", "west") ∷ []

abbrev pub to_east : Map String String
to_east = ("peer.clusterlink.net/name", "east") ∷ []

abbrev pub history : List (Change as_selector)
history =
    add_or_update (regular "open" allow_all)
    ∷ add_or_update (regular "west" deny_west)
    ∷ remove (object "other") true
    ∷ []
