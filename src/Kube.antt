-- ===== src/Kube.antt =====
-- What the control plane asks of the API server. The client is not code of the repository: a store
-- of any type with the operations for one kind of objects is a parameter.
use clusterlink.Common.{Option, List, Result, Bool, true, false, String}
use clusterlink.Crds.Names.{NamespacedName}

-- The errors that the program tells apart, `IsNotFound` and `IsAlreadyExists`, and all others.
pub data ApiError : Type 0 where
  not_found already_exists : ApiError
  api_failed : String → ApiError

abbrev pub is_not_found : ApiError → Bool
is_not_found not_found = true
is_not_found already_exists = false
is_not_found (api_failed e) = false

-- `list` takes what its options select: labels, and a namespace.
pub record Objects (S A : Type 0) : Type 0 where
  pub get : NamespacedName → S → Result ApiError A
  pub list : (A → Bool) → S → Result ApiError (List A)
  pub create : A → S → S × Option ApiError
  pub update : A → S → S × Option ApiError
  pub update_status : A → S → S × Option ApiError
  pub remove : NamespacedName → S → S × Option ApiError
