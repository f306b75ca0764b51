-- ===== src/Slices.antt =====
-- When an endpoint slice counts as changed, and when a condition does: endpointSliceChanged,
-- boolPointerChanged and conditionChanged of pkg/controlplane/control/manager.go.
use clusterlink.Common.{
  ℕ, ◌≡◌, refl, ap₂, ◌↔◌, String, Bool, true, false, not, ◌||◌, Option, none, some, List, [], ◌∷◌,
  str_eq, eq_iff, nat_eq, length, arith,
}
use clusterlink.Common.Maps.{Map}
use clusterlink.Crds.Names.{NamespacedName}
use clusterlink.Crds.Peers.{Condition}
use clusterlink.Monitor.{same_bool}

-- `discv1.Endpoint`, with what the program reads; a pointer is an option.
pub record SliceEndpoint : Type 0 where
  pub addresses : List String
  pub ready : Option Bool
  pub serving : Option Bool
  pub terminating : Option Bool

pub record SlicePort : Type 0 where
  pub port : ℕ
  pub protocol : String

pub record EndpointSlice : Type 0 where
  pub object : NamespacedName
  pub address_type : String
  pub labels : Map String String
  pub endpoints : List SliceEndpoint
  pub ports : List SlicePort

unfoldable pub bool_pointer_changed : Option Bool → Option Bool → Bool
bool_pointer_changed none none = false
bool_pointer_changed none (some b) = true
bool_pointer_changed (some a) none = true
bool_pointer_changed (some a) (some b) = not (same_bool a b)

unfoldable pub addresses_differ : List String → List String → Bool
addresses_differ [] ys = false
addresses_differ (x ∷ xs) [] = false
addresses_differ (x ∷ xs) (y ∷ ys) = let rest = addresses_differ xs ys in not (str_eq x y) || rest

-- One round of the loop over the endpoints.
unfoldable pub endpoint_differs : SliceEndpoint → SliceEndpoint → Bool
unfolding addresses_differ bool_pointer_changed
endpoint_differs a b =
    not (nat_eq (length a.addresses) (length b.addresses))
    || addresses_differ a.addresses b.addresses
    || bool_pointer_changed a.ready b.ready
    || bool_pointer_changed a.serving b.serving
    || bool_pointer_changed a.terminating b.terminating

unfoldable pub endpoints_differ : List SliceEndpoint → List SliceEndpoint → Bool
unfolding endpoint_differs
endpoints_differ [] ys = false
endpoints_differ (x ∷ xs) [] = false
endpoints_differ (x ∷ xs) (y ∷ ys) =
    let rest = endpoints_differ xs ys in endpoint_differs x y || rest

-- `same_labels` is `reflect.DeepEqual` on the labels.
unfoldable pub endpoint_slice_changed :
    (Map String String → Map String String → Bool) → EndpointSlice → EndpointSlice → Bool
unfolding endpoints_differ
endpoint_slice_changed same_labels a b =
    not (str_eq a.address_type b.address_type)
    || not (same_labels a.labels b.labels)
    || not (nat_eq (length a.endpoints) (length b.endpoints))
    || endpoints_differ a.endpoints b.endpoints

-- `old` is what `meta.FindStatusCondition` found for the condition's type.
unfoldable pub condition_changed : Option Condition → Condition → Bool
condition_changed none cond = true
condition_changed (some old) cond =
    not (str_eq old.status cond.status)
    || not (str_eq old.reason cond.reason)
    || not (str_eq old.message cond.message)

bool_pointer_lem : (a b : Option Bool) → bool_pointer_changed a b ≡ false → a ≡ b
unfolding bool_pointer_changed
bool_pointer_lem none none h = refl
bool_pointer_lem none (some b) h = absurd (cc)
bool_pointer_lem (some a) none h = absurd (cc)
bool_pointer_lem (some true) (some true) h = refl
bool_pointer_lem (some true) (some false) h = absurd (cc)
bool_pointer_lem (some false) (some true) h = absurd (cc)
bool_pointer_lem (some false) (some false) h = refl

addresses_lem :
    (xs ys : List String) → length xs ≡ length ys → addresses_differ xs ys ≡ false → xs ≡ ys
unfolding addresses_differ
addresses_lem [] [] l h = refl
addresses_lem [] (y ∷ ys) l h = absurd (omega (arith, l))
addresses_lem (x ∷ xs) [] l h = absurd (omega (arith, l))
addresses_lem (x ∷ xs) (y ∷ ys) l h =
    ap₂ (λ (z : String) (zs : List String). z ∷ zs) (ground (arith, eq_iff x y))
      (addresses_lem xs ys (omega arith) (ground arith))

endpoint_lem : (a b : SliceEndpoint) → endpoint_differs a b ≡ false → a ≡ b
unfolding endpoint_differs
endpoint_lem a b h =
    let addresses = addresses_lem a.addresses b.addresses (ground arith) (ground arith) in
    let ready = bool_pointer_lem a.ready b.ready (ground arith) in
    let serving = bool_pointer_lem a.serving b.serving (ground arith) in
    let terminating = bool_pointer_lem a.terminating b.terminating (ground arith) in cc

endpoints_lem :
    (xs ys : List SliceEndpoint) → length xs ≡ length ys → endpoints_differ xs ys ≡ false → xs ≡ ys
unfolding endpoints_differ
endpoints_lem [] [] l h = refl
endpoints_lem [] (y ∷ ys) l h = absurd (omega (arith, l))
endpoints_lem (x ∷ xs) [] l h = absurd (omega (arith, l))
endpoints_lem (x ∷ xs) (y ∷ ys) l h =
    ap₂ (λ (z : SliceEndpoint) (zs : List SliceEndpoint). z ∷ zs) (endpoint_lem x y (ground arith))
      (endpoints_lem xs ys (omega arith) (ground arith))

-- An endpoint slice that did not change has the same address type and endpoints, and labels that
-- DeepEqual takes for the same.
pub endpoint_slice_changed-false :
    (same_labels : Map String String → Map String String → Bool) (a b : EndpointSlice)
    → endpoint_slice_changed same_labels a b ≡ false
    → (a.address_type ≡ b.address_type)
      × (same_labels a.labels b.labels ≡ true)
      × (a.endpoints ≡ b.endpoints)
unfolding endpoint_slice_changed
endpoint_slice_changed-false same_labels a b h = (
  ground (arith, eq_iff a.address_type b.address_type),
  ground arith,
  endpoints_lem a.endpoints b.endpoints (ground arith) (ground arith),
)

-- A condition did not change exactly where one of its type was found with the same status, reason
-- and message.
pub condition_changed-false_iff :
    (o : Option Condition) (cond : Condition)
    → (condition_changed o cond ≡ false) ↔ (
        (old : Condition) × (o ≡ some old)
        × (old.status ≡ cond.status)
        × (old.reason ≡ cond.reason)
        × (old.message ≡ cond.message))
unfolding condition_changed
condition_changed-false_iff none cond = ((λ h. absurd (cc)), λ (old, e, _, _, _). absurd (cc))
condition_changed-false_iff (some old) cond = (
  (λ h. (
    old,
    refl,
    ground (arith, eq_iff old.status cond.status),
    ground (arith, eq_iff old.reason cond.reason),
    ground (arith, eq_iff old.message cond.message),
  )),
  λ (old', e, s, r, t). ground (
    arith,
    eq_iff old.status cond.status,
    eq_iff old.reason cond.reason,
    eq_iff old.message cond.message,
  ),
)
