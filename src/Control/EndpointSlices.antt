-- ===== src/Control/EndpointSlices.antt =====
-- The copies of the dataplane's endpoint slices that merge imports get: checkImportEndpointSlice,
-- addImportEndpointSlices, deleteImportEndpointSlices and checkEndpointSlice of
-- pkg/controlplane/control/manager.go.
use clusterlink.Common.{
  String, Bool, not, ◌&&◌, none, some, List, [], ◌∷◌, Result, ok, err, if◌then◌else◌, str_eq,
  string_eq,
}
use clusterlink.Crds.Names.{NamespacedName}
use clusterlink.Crds.Imports.{Import, label_import_merge}
use clusterlink.Kube.{ApiError, is_not_found}
use clusterlink.Services.{Service, app_name, has_label}
use clusterlink.Slices.{EndpointSlice, endpoint_slice_changed}
use clusterlink.Control.{
  Setup, ControlState, End, store, for_each, wrote, removed, api_error, import_service_not_exist,
}
use clusterlink.Control.Names.{slice_name, parse_name}

abbrev pub label_service_name : String
label_service_name = "kubernetes.io/service-name"

abbrev pub label_slice_managed_by : String
label_slice_managed_by = "endpointslice.kubernetes.io/managed-by"

abbrev pub label_dp_endpoint_slice_name : String
label_dp_endpoint_slice_name = "clusterlink.net/dataplane-endpointslice-name"

-- `IngressSvcName` of cmd/cl-dataplane/app.
abbrev pub ingress_svc_name : String
ingress_svc_name = "clusterlink"

abbrev pub is_merge : Import → Bool
is_merge imp = has_label label_import_merge "true" imp.labels

-- The endpoint slice that an import should have for a dataplane endpoint slice.
unfoldable pub import_endpoint_slice : Import → EndpointSlice → EndpointSlice
import_endpoint_slice imp dataplane = record {
  object = record {
    namespace = imp.object.namespace;
    name = slice_name imp.object.name dataplane.object.name;
  };
  address_type = "IPv4";
  labels =
      (label_service_name, imp.object.name)
      ∷ (label_slice_managed_by, app_name)
      ∷ (label_dp_endpoint_slice_name, dataplane.object.name)
      ∷ [];
  endpoints = dataplane.endpoints;
  ports = record { port = imp.target_port; protocol = "TCP" } ∷ [];
}

module _ {S : Type 0} (w : Setup S) where
  -- After the Get of the slice that should be there.
  unfoldable pub put_slice : EndpointSlice → ControlState S → Result ApiError EndpointSlice → End S
  put_slice wanted m (err e) =
      if not (is_not_found e)
      then (m, some (api_error e))
      else wrote m (w.slices.create wanted (store m))
  put_slice wanted m (ok old) =
      if not (endpoint_slice_changed w.same_labels wanted old)
      then (m, none)
      else wrote m (w.slices.update wanted (store m))

  unfoldable pub check_import_endpoint_slice : Import → EndpointSlice → ControlState S → End S
  unfolding put_slice import_endpoint_slice
  check_import_endpoint_slice imp dataplane m =
      let wanted = import_endpoint_slice imp dataplane in
      put_slice wanted m (w.slices.get wanted.object (store m))

  -- The options of the two lists.
  abbrev pub is_dataplane_slice : EndpointSlice → Bool
  is_dataplane_slice s =
      has_label label_service_name ingress_svc_name s.labels
      && str_eq s.object.namespace w.namespace

  abbrev pub is_slice_of : NamespacedName → EndpointSlice → Bool
  is_slice_of name s =
      has_label label_slice_managed_by app_name s.labels
      && has_label label_service_name name.name s.labels
      && str_eq s.object.namespace name.namespace

  -- After the List of the dataplane slices.
  unfoldable pub copy_found : Import → ControlState S → Result ApiError (List EndpointSlice) → End S
  copy_found imp m (err e) = (m, some (api_error e))
  copy_found imp m (ok found) = for_each (check_import_endpoint_slice imp) found m

  -- After the Get of the import's service.
  unfoldable pub copy_to_service : Import → ControlState S → Result ApiError Service → End S
  unfolding copy_found
  copy_to_service imp m (err e) =
      if is_not_found e
      then (m, some (import_service_not_exist imp.object))
      else (m, some (api_error e))
  copy_to_service imp m (ok service) = copy_found imp m (w.slices.list is_dataplane_slice (store m))

  unfoldable pub add_import_endpoint_slices : Import → ControlState S → End S
  unfolding copy_to_service
  add_import_endpoint_slices imp m = copy_to_service imp m (w.services.get imp.object (store m))

  unfoldable pub delete_slice : EndpointSlice → ControlState S → End S
  delete_slice s m = removed m (w.slices.remove s.object (store m))

  -- After the List of what is to be deleted.
  unfoldable pub delete_found : ControlState S → Result ApiError (List EndpointSlice) → End S
  delete_found m (err e) = (m, some (api_error e))
  delete_found m (ok found) = for_each delete_slice found m

  unfoldable pub delete_import_endpoint_slices : NamespacedName → ControlState S → End S
  unfolding delete_found
  delete_import_endpoint_slices name m = delete_found m (w.slices.list (is_slice_of name) (store m))

  -- The end of checkEndpointSlice where a slice has no import or no dataplane slice.
  unfoldable pub delete_stale : NamespacedName → ControlState S → End S
  delete_stale name m = removed m (w.slices.remove name (store m))

  unfoldable pub check_dataplane_slice :
      NamespacedName → Import → ControlState S → Result ApiError EndpointSlice → End S
  check_dataplane_slice name imp m (err e) =
      if not (is_not_found e) then (m, some (api_error e)) else delete_stale name m
  check_dataplane_slice name imp m (ok dataplane) = check_import_endpoint_slice imp dataplane m

  unfoldable pub check_slice_import :
      NamespacedName → String → ControlState S → Result ApiError Import → End S
  check_slice_import name dataplane_name m (err e) =
      if not (is_not_found e) then (m, some (api_error e)) else delete_stale name m
  check_slice_import name dataplane_name m (ok imp) =
      if not (is_merge imp)
      then delete_stale name m
      else check_dataplane_slice name imp m
          (w.slices.get (record { namespace = w.namespace; name = dataplane_name }) (store m))

  unfoldable pub check_endpoint_slice : NamespacedName → ControlState S → End S
  check_endpoint_slice name m = elim (parse_name name.name) [
    | none ↦ (m, none)
    | some (import_name, dataplane_name) ↦
        check_slice_import name dataplane_name m
          (w.imports.get (record { namespace = name.namespace; name = import_name }) (store m))
  ]
