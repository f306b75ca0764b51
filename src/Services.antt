-- ===== src/Services.antt =====
-- The services that stand for imports: addImportService, deleteImportService, checkServiceLabels
-- and serviceChanged of pkg/controlplane/control/manager.go.
pub mod Desired
use clusterlink.Common.{
  ℕ, String, Bool, true, false, not, ◌&&◌, ◌||◌, Option, none, some, List, [], ◌∷◌, Result, ok, err,
  nat_eq, length, if◌then◌else◌, str_eq, string_eq,
}
use clusterlink.Common.Maps.{Map, lookup, insert, delete}
use clusterlink.Crds.Names.{NamespacedName}
use clusterlink.Kube.{ApiError, is_not_found, Objects}

pub record ServicePort : Type 0 where
  pub protocol : String
  pub port : ℕ
  pub target_port : ℕ

-- `v1.Service`, with the fields that the program reads or writes.
pub record Service : Type 0 where
  pub object : NamespacedName
  pub labels : Map String String
  pub service_type : String
  pub external_name : String
  pub selector : Map String String
  pub ports : List ServicePort

pub data ServiceError : Type 0 where
  conflicting_service : NamespacedName → String → ServiceError
  cannot_get_service : ApiError → ServiceError
  cannot_write : ApiError → ServiceError

-- The store of the API server and the manager's map.
pub record ServiceState (S : Type 0) : Type 0 where
  pub store : S
  pub service_to_import : Map String NamespacedName

abbrev pub label_managed_by : String
label_managed_by = "app.kubernetes.io/managed-by"

abbrev pub app_name : String
app_name = "clusterlink.net"

abbrev pub label_import_name : String
label_import_name = "clusterlink.net/import-name"

abbrev pub label_import_namespace : String
label_import_namespace = "clusterlink.net/import-namespace"

abbrev pub has_label : String → String → Map String String → Bool
has_label key value labels = elim (lookup key labels) [ none ↦ false | some v ↦ str_eq v value ]

unfoldable pub check_service_labels : Service → NamespacedName → Bool
check_service_labels service import_name =
    has_label label_managed_by app_name service.labels
    && has_label label_import_name import_name.name service.labels
    && has_label label_import_namespace import_name.namespace service.labels

unfoldable pub selector_differs : Map String String → Map String String → Bool
selector_differs [] other = false
selector_differs ((key, value) ∷ rest) other =
    let others = selector_differs rest other in not (has_label key value other) || others

unfoldable pub ports_differ : List ServicePort → List ServicePort → Bool
ports_differ [] ys = false
ports_differ (x ∷ xs) [] = false
ports_differ (x ∷ xs) (y ∷ ys) =
    let rest = ports_differ xs ys in
    not (str_eq x.protocol y.protocol)
    || not (nat_eq x.port y.port)
    || not (nat_eq x.target_port y.target_port)
    || rest

unfoldable pub service_changed : Service → Service → Bool
unfolding selector_differs ports_differ
service_changed a b =
    not (str_eq a.service_type b.service_type)
    || not (str_eq a.external_name b.external_name)
    || not (nat_eq (length a.selector) (length b.selector))
    || selector_differs a.selector b.selector
    || not (nat_eq (length a.ports) (length b.ports))
    || ports_differ a.ports b.ports

-- The labels that `addImportService` writes.
abbrev pub labelled : NamespacedName → Service → Service
labelled imp service = record service {
  labels =
      insert label_import_namespace imp.namespace
        (insert label_import_name imp.name (insert label_managed_by app_name service.labels));
}

-- A missing label reads as the empty text.
abbrev pub label_of : String → Service → String
label_of key service = elim (lookup key service.labels) [ none ↦ "" | some value ↦ value ]

module _ {S : Type 0} (client : Objects S Service) where
  -- The end of a write: the new store, and the error if there is one.
  abbrev pub written :
      Map String NamespacedName → S × Option ApiError → ServiceState S × Option ServiceError
  written names (st, none) = (record { store = st; service_to_import = names }, none)
  written names (st, some e) =
      (record { store = st; service_to_import = names }, some (cannot_write e))

  abbrev pub names_after : NamespacedName → Service → ServiceState S → Map String NamespacedName
  names_after imp service m =
      if not (str_eq imp.namespace service.object.namespace)
      then insert service.object.name imp m.service_to_import
      else m.service_to_import

  -- After the Get of the service of this name.
  unfoldable pub put_service :
      NamespacedName
      → Service
      → S
      → Map String NamespacedName
      → Result ApiError Service
      → ServiceState S × Option ServiceError
  put_service imp service st names (err e) =
      if not (is_not_found e)
      then (record { store = st; service_to_import = names }, some (cannot_get_service e))
      else written names (client.create service st)
  put_service imp service st names (ok old) =
      if not (check_service_labels old imp)
      then (
        record { store = st; service_to_import = names },
        some (conflicting_service service.object (label_of label_managed_by old)),
      )
      else if not (service_changed old service)
      then (record { store = st; service_to_import = names }, none)
      else written names (client.update service st)

  unfoldable pub add_import_service :
      NamespacedName → Service → ServiceState S → ServiceState S × Option ServiceError
  unfolding put_service
  add_import_service imp service m =
      put_service imp (labelled imp service) m.store (names_after imp service m)
        (client.get service.object m.store)

  -- After the Delete of the service that was read.
  abbrev pub deleted :
      NamespacedName
      → NamespacedName
      → Service
      → Map String NamespacedName
      → S × Option ApiError
      → ServiceState S × Option ServiceError
  deleted service imp old names (st, some e) =
      (record { store = st; service_to_import = names }, some (cannot_write e))
  deleted service imp old names (st, none) = (
    record {
      store = st;
      service_to_import =
          if not (str_eq (label_of label_import_namespace old) imp.namespace)
          then delete service.name names
          else names;
    },
    none,
  )

  unfoldable pub remove_service :
      NamespacedName
      → NamespacedName
      → ServiceState S
      → Result ApiError Service
      → ServiceState S × Option ServiceError
  remove_service service imp m (err e) =
      if not (is_not_found e) then (m, some (cannot_get_service e)) else (m, none)
  remove_service service imp m (ok old) =
      if not (check_service_labels old imp)
      then (m, none)
      else deleted service imp old m.service_to_import (client.remove service m.store)

  unfoldable pub delete_import_service :
      NamespacedName → NamespacedName → ServiceState S → ServiceState S × Option ServiceError
  unfolding remove_service
  delete_import_service service imp m = remove_service service imp m (client.get service m.store)
