-- ===== src/Crds/Policies.antt =====
-- pkg/apis/clusterlink.net/v1alpha1/accesspolicy.go. A label selector is a type of the Kubernetes
-- API: its expressions are a parameter, `R`, and so is the conversion that gives it a meaning.
use clusterlink.Common.{
  String, Bool, true, false, not, ◌&&◌, ◌||◌, Option, none, some, List, [], ◌∷◌, str_eq, length,
  if◌then◌else◌, Result, ok, err, ◌>>◌, nat_eq, ltb,
}
use clusterlink.Common.Maps.{Map}

-- `metav1.LabelSelector`, with the two fields that the program looks at.
pub record LabelSelector (R : Type 0) : Type 0 where
  pub match_labels : Map String String
  pub match_expressions : List R

pub record WorkloadSetOrSelector (R : Type 0) : Type 0 where
  pub workload_sets : List String
  pub workload_selector : Option (LabelSelector R)

pub record AccessPolicySpec (R : Type 0) : Type 0 where
  pub action : String
  pub from : List (WorkloadSetOrSelector R)
  pub to : List (WorkloadSetOrSelector R)

abbrev pub action_allow : String
action_allow = "allow"

abbrev pub action_deny : String
action_deny = "deny"

pub data PolicyError : Type 0 where
  unsupported_action : String → PolicyError
  empty_from empty_to selector_choice sets_unsupported : PolicyError
  bad_selector : String → PolicyError

-- `metav1.LabelSelectorAsSelector`, then the `Matches` of what it returns.
abbrev pub AsSelector : Type 0 → Type 0
AsSelector R = Option (LabelSelector R) → Result String (Map String String → Bool)

abbrev is_some {ℓ} : {A : Type ℓ} → Option A → Bool
is_some none = false
is_some (some a) = true

module _ {R : Type 0} (as_selector : AsSelector R) where
  abbrev selector_error : Result String (Map String String → Bool) → Result PolicyError (Unit {0})
  selector_error (ok f) = ok tt
  selector_error (err e) = err (bad_selector e)

  unfoldable pub validate_item : WorkloadSetOrSelector R → Result PolicyError (Unit {0})
  validate_item wss =
      let sets = ltb 0 (length wss.workload_sets) in
      let selected = is_some wss.workload_selector in
      if sets && selected || not sets && not selected
      then err selector_choice
      else if sets
      then err sets_unsupported
      else selector_error (as_selector wss.workload_selector)

  unfoldable pub validate_list : List (WorkloadSetOrSelector R) → Result PolicyError (Unit {0})
  validate_list [] = ok tt
  validate_list (w ∷ ws) =
      let rest = validate_list ws in elim (validate_item w) [ ok _ ↦ rest | err e ↦ err e ]

  unfoldable pub validate : AccessPolicySpec R → Result PolicyError (Unit {0})
  validate p =
      if not (str_eq p.action action_allow) && not (str_eq p.action action_deny)
      then err (unsupported_action p.action)
      else if nat_eq (length p.from) 0
      then err empty_from
      else do
        validate_list p.from
        if nat_eq (length p.to) 0 then err empty_to else validate_list p.to
