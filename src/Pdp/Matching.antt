-- ===== src/Pdp/Matching.antt =====
-- Whether one policy matches a connection, and what it then decides (connectivity_pdp.go).
use clusterlink.Common.{
  String, Bool, true, false, List, [], ◌∷◌, str_eq, if◌then◌else◌, Result, ok, ◌>>=◌,
}
use clusterlink.Common.Maps.{Map}
use clusterlink.Crds.Policies.{AsSelector, WorkloadSetOrSelector, AccessPolicySpec, action_allow}

abbrev pub WorkloadAttrs : Type 0
WorkloadAttrs = Map String String

pub data Decision : Type 0 where
  undecided allow deny : Decision

module _ {R : Type 0} (as_selector : AsSelector R) where
  unfoldable pub workload_set_or_selector_matches :
      WorkloadSetOrSelector R → WorkloadAttrs → Result String Bool
  workload_set_or_selector_matches wss attrs = do
    selector ← as_selector wss.workload_selector
    ok (selector attrs)

  unfoldable pub workload_set_or_selector_list_matches :
      List (WorkloadSetOrSelector R) → WorkloadAttrs → Result String Bool
  workload_set_or_selector_list_matches [] attrs = ok false
  workload_set_or_selector_list_matches (w ∷ ws) attrs =
      let rest = workload_set_or_selector_list_matches ws attrs in
      workload_set_or_selector_matches w attrs >>= λ matched. if matched then ok true else rest

  unfoldable pub access_policy_matches :
      AccessPolicySpec R → WorkloadAttrs → WorkloadAttrs → Result String Bool
  access_policy_matches policy src dest = do
    matched ← workload_set_or_selector_list_matches policy.from src
    if matched then workload_set_or_selector_list_matches policy.to dest else ok false

  unfoldable pub access_policy_decide :
      AccessPolicySpec R → WorkloadAttrs → WorkloadAttrs → Result String Decision
  access_policy_decide policy src dest = do
    matches ← access_policy_matches policy src dest
    if matches
        then (if str_eq policy.action action_allow then ok allow else ok deny)
        else ok undecided
