-- ===== src/Control/Imports.antt =====
-- addImport with its deferred end, allocateTargetPort and deleteImport of
-- pkg/controlplane/control/manager.go. The import is changed in place: its target port is set before
-- the update that may fail. The object that the API server returns from an update is the one written.
use Prim.Native.String.{◌++◌ as str_append}
use clusterlink.Common.{
  ℕ, String, not, ◌||◌, Option, none, some, List, [], ◌∷◌, ◌++◌, Result, ok, err, if◌then◌else◌,
  str_eq, nat_eq,
}
use clusterlink.Crds.Names.{NamespacedName}
use clusterlink.Crds.Imports.{Import, import_target_port_valid, import_service_valid}
use clusterlink.Kube.{ApiError}
use clusterlink.Ports.{PortError, lease, release, PortManager}
use clusterlink.Services.{
  Service, ServiceState, ServiceError, add_import_service, delete_import_service,
}
use clusterlink.Control.{
  Setup, ControlState, ControlError, End, store, with_store, and_then, served, api_error,
  cannot_generate_port, system_service_name, condition, changed, status_end, end_terminal,
  is_import_terminal,
}
use clusterlink.Control.EndpointSlices.{
  is_merge, add_import_endpoint_slices, delete_import_endpoint_slices,
}

abbrev pub with_target_port : ℕ → Import → Import
with_target_port port imp = record imp { spec = record (imp.spec) { target_port = port } }

-- `Name` of pkg/dataplane/api.
abbrev pub dataplane_name : String
dataplane_name = "cl-dataplane"

abbrev pub cluster_service : NamespacedName → Import → Service
cluster_service name imp = record {
  object = name;
  labels = [];
  service_type = "ClusterIP";
  external_name = "";
  selector = ("app", dataplane_name) ∷ [];
  ports = record { protocol = "TCP"; port = imp.port; target_port = imp.target_port } ∷ [];
}

abbrev pub external_service : NamespacedName → String → Service
external_service name target = record {
  object = name;
  labels = [];
  service_type = "ExternalName";
  external_name = target;
  selector = [];
  ports = [];
}

module _ {S : Type 0} (w : Setup S) where
  -- After the update of the import that has the new port; where it fails, the port is given back.
  abbrev pub port_written : Import → ControlState S → PortManager → S × Option ApiError → End S
  port_written imp m ports (st, none) = (record (with_store st m) { ports = ports }, none)
  port_written imp m ports (st, some e) =
      (record (with_store st m) { ports = release imp.object ports }, some (api_error e))

  -- After the lease, with the import that the caller goes on with.
  unfoldable pub store_port :
      Import → ControlState S → PortManager × Result PortError ℕ → Import × End S
  store_port imp m (ports, err e) =
      (imp, (record m { ports = ports }, some (cannot_generate_port e)))
  store_port imp m (ports, ok port) =
      if nat_eq imp.target_port 0
      then (
        with_target_port port imp,
        port_written imp m ports (w.imports.update (with_target_port port imp) (store m)),
      )
      else (imp, (record m { ports = ports }, none))

  unfoldable pub allocate_target_port : (ℕ → ℕ) → Import → ControlState S → Import × End S
  unfolding store_port
  allocate_target_port draws imp m =
      store_port imp m (lease draws imp.object imp.target_port m.ports)

  -- The name of the service in the namespace of the system.
  abbrev pub service_name : NamespacedName → String
  service_name name =
      if not (str_eq name.namespace w.namespace) then system_service_name w name else name.name

  -- The service that points to the one in the namespace of the system.
  unfoldable pub expose_user : Import → ControlState S → End S
  expose_user imp m =
      if str_eq imp.object.namespace w.namespace
      then (m, none)
      else served m (
          add_import_service w.services imp.object
            (external_service imp.object (
              str_append (service_name imp.object)
                (str_append "." (str_append w.namespace ".svc.cluster.local"))))
            m.services)

  abbrev pub system_added : Import → ControlState S → ServiceState S × Option ServiceError
  system_added imp m =
      add_import_service w.services imp.object
        (cluster_service (record { namespace = w.namespace; name = service_name imp.object }) imp)
        m.services

  unfoldable pub expose_system : Import → ControlState S → End S
  unfolding expose_user
  expose_system imp m = and_then (served m (system_added imp m)) (expose_user imp)

  -- From the merge label on.
  unfoldable pub expose_import : Import → ControlState S → End S
  unfolding expose_system
  expose_import imp m =
      if is_merge imp
      then add_import_endpoint_slices w imp m
      else and_then (delete_import_endpoint_slices w imp.object m) (expose_system imp)

  -- The deferred function, with the error of the target port and the error of all.
  unfoldable pub finish_import :
      Import → Option ControlError → Option ControlError → ControlState S → End S
  finish_import imp port_error error m =
      let port_cond = condition w import_target_port_valid "Leased" port_error in
      let service_cond = condition w import_service_valid "Valid" error in
      if changed w imp.conditions service_cond || changed w imp.conditions port_cond
      then status_end is_import_terminal error m (
          w.imports.update_status
            (record imp {
              conditions =
                  w.set_status_condition (w.set_status_condition imp.conditions port_cond)
                    service_cond;
            })
            (store m))
      else (m, end_terminal is_import_terminal error)

  unfoldable pub after_port : Import × End S → End S
  unfolding expose_import finish_import
  after_port (imp, (m, some e)) = finish_import imp (some e) (some e) m
  after_port (imp, (m, none)) =
      let exposed = expose_import imp m in finish_import imp none exposed.1 exposed.0

  unfoldable pub add_import : (ℕ → ℕ) → Import → ControlState S → End S
  unfolding after_port
  add_import draws imp m = after_port (allocate_target_port draws imp m)

  -- The errors that `errors.Join` joins; the result is nil where there are none.
  abbrev pub errors_of : Option ControlError → List ControlError
  errors_of none = []
  errors_of (some e) = e ∷ []

  unfoldable pub delete_system_service : NamespacedName → ControlState S → End S
  delete_system_service name m =
      if not (str_eq name.namespace w.namespace)
      then served m (
          delete_import_service w.services
            (record { namespace = w.namespace; name = system_service_name w name }) name m.services)
      else (m, none)

  unfoldable pub delete_import :
      NamespacedName → ControlState S → ControlState S × List ControlError
  unfolding delete_system_service
  delete_import name m =
      let user = served m (delete_import_service w.services name name m.services) in
      let system = delete_system_service name user.0 in
      let slices = delete_import_endpoint_slices w name system.0 in
      (
        record (slices.0) { ports = release name slices.0.ports },
        errors_of user.1 ++ (errors_of system.1 ++ errors_of slices.1),
      )
