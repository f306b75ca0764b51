-- ===== src/Control/Events.antt =====
-- The handlers of the controllers of services and endpoint slices: addService, deleteService,
-- checkImportService, checkExportService, addEndpointSlice and deleteEndpointSlice of
-- pkg/controlplane/control/manager.go.
use clusterlink.Common.{
  ℕ, String, Bool, not, ◌&&◌, none, some, ok, err, if◌then◌else◌, str_eq, string_eq,
}
use clusterlink.Common.Maps.{lookup}
use clusterlink.Crds.Names.{NamespacedName}
use clusterlink.Kube.{is_not_found}
use clusterlink.Services.{app_name, has_label}
use clusterlink.Slices.{EndpointSlice}
use clusterlink.Control.{Setup, ControlState, End, store, and_then, for_each, api_error}
use clusterlink.Control.EndpointSlices.{
  is_merge, is_dataplane_slice, check_import_endpoint_slice, check_endpoint_slice, delete_found,
  label_dp_endpoint_slice_name, label_slice_managed_by,
}
use clusterlink.Control.Imports.{add_import}
use clusterlink.Control.Exports.{add_export}

module _ {S : Type 0} (w : Setup S) where
  unfoldable pub check_export_service : NamespacedName → ControlState S → End S
  check_export_service name m = elim (w.exports.get name (store m)) [
    | err e ↦ if not (is_not_found e) then (m, some (api_error e)) else (m, none)
    | ok export ↦ add_export w export m
  ]

  -- Where an import of this name is there, it is added again.
  unfoldable pub check_import : (ℕ → ℕ) → NamespacedName → ControlState S → End S
  check_import draws name m = elim (w.imports.get name (store m)) [
    | err e ↦ if not (is_not_found e) then (m, some (api_error e)) else (m, none)
    | ok imp ↦ add_import w draws imp m
  ]

  -- The import that the map has for a service of the system's namespace.
  unfoldable pub check_mapped_import : (ℕ → ℕ) → NamespacedName → ControlState S → End S
  unfolding check_import
  check_mapped_import draws name m =
      if not (str_eq name.namespace w.namespace)
      then (m, none)
      else elim (lookup name.name m.services.service_to_import) [
        | none ↦ (m, none)
        | some import_name ↦ check_import draws import_name m
      ]

  -- `draws` and `draws₂` are the random numbers of the two possible leases.
  unfoldable pub check_import_service : (ℕ → ℕ) → (ℕ → ℕ) → NamespacedName → ControlState S → End S
  unfolding check_import check_mapped_import
  check_import_service draws draws₂ name m =
      and_then (check_import draws name m) (check_mapped_import draws₂ name)

  -- `addService` and `deleteService` do the same with the service's name.
  unfoldable pub service_event : (ℕ → ℕ) → (ℕ → ℕ) → NamespacedName → ControlState S → End S
  unfolding check_import_service check_export_service
  service_event draws draws₂ name m =
      and_then (check_import_service draws draws₂ name m) (check_export_service name)

  unfoldable pub add_endpoint_slice : EndpointSlice → ControlState S → End S
  add_endpoint_slice slice m =
      if is_dataplane_slice w slice
      then elim (w.imports.list is_merge (store m)) [
        | err e ↦ (m, some (api_error e))
        | ok imports ↦ for_each (λ imp. check_import_endpoint_slice w imp slice) imports m
      ]
      else check_endpoint_slice w slice.object m

  -- The copies of a dataplane slice, in every namespace.
  abbrev pub is_copy_of : String → EndpointSlice → Bool
  is_copy_of name s =
      has_label label_slice_managed_by app_name s.labels
      && has_label label_dp_endpoint_slice_name name s.labels

  unfoldable pub delete_copies : NamespacedName → ControlState S → End S
  delete_copies name m =
      if not (str_eq name.namespace w.namespace)
      then (m, none)
      else delete_found w m (w.slices.list (is_copy_of name.name) (store m))

  unfoldable pub delete_endpoint_slice : NamespacedName → ControlState S → End S
  unfolding delete_copies
  delete_endpoint_slice name m = and_then (check_endpoint_slice w name m) (delete_copies name)
