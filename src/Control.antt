-- ===== src/Control.antt =====
-- The control manager, pkg/controlplane/control/manager.go: its state, the API server's objects that
-- it works on, and the errors of its handlers. A handler is a function of the state, which it returns
-- with an error if there is one.
pub mod Names
pub mod EndpointSlices
pub mod Imports
pub mod Exports
pub mod Secrets
pub mod Events
pub mod Leasing
pub mod Errors
pub mod Releases
pub mod Copies
pub mod Keys
pub mod Watch
use Prim.Native.String.{◌++◌ as str_append}
use clusterlink.Common.{
  ℕ, String, Bool, true, false, not, ◌||◌, Option, none, some, List, [], ◌∷◌, Result, ok, err,
  if◌then◌else◌,
}
use clusterlink.Common.Maps.{Map}
use clusterlink.Crds.Names.{NamespacedName}
use clusterlink.Crds.Peers.{Condition, Export}
use clusterlink.Crds.Imports.{Import}
use clusterlink.Kube.{ApiError, is_not_found, Objects}
use clusterlink.Ports.{PortManager, PortError, all_ports_taken, conflicting_target_port}
use clusterlink.Services.{
  Service, ServiceState, ServiceError, conflicting_service, cannot_get_service, cannot_write,
}
use clusterlink.Slices.{EndpointSlice, condition_changed}

-- `v1.Secret`, with its data.
pub record Secret : Type 0 where
  pub object : NamespacedName
  pub data_of : Map String String

-- `terminal` is `reconcile.TerminalError`: the controller does not try again.
pub data ControlError : Type 0 where
  api_error : ApiError → ControlError
  service_error : ServiceError → ControlError
  cannot_generate_port : PortError → ControlError
  import_service_not_exist export_service_not_exist : NamespacedName → ControlError
  cannot_generate_key : String → ControlError
  terminal : ControlError → ControlError

-- `errors.Is` for each of the three errors that end an import's reconciliation.
abbrev pub is_import_terminal : ControlError → Bool
is_import_terminal (service_error (conflicting_service n by)) = true
is_import_terminal (service_error (cannot_get_service e)) = false
is_import_terminal (service_error (cannot_write e)) = false
is_import_terminal (cannot_generate_port (conflicting_target_port p n)) = true
is_import_terminal (cannot_generate_port all_ports_taken) = false
is_import_terminal (import_service_not_exist n) = true
is_import_terminal (export_service_not_exist n) = false
is_import_terminal (api_error e) = false
is_import_terminal (cannot_generate_key e) = false
is_import_terminal (terminal e) = is_import_terminal e

abbrev pub is_export_terminal : ControlError → Bool
is_export_terminal (export_service_not_exist n) = true
is_export_terminal (service_error e) = false
is_export_terminal (cannot_generate_port e) = false
is_export_terminal (import_service_not_exist n) = false
is_export_terminal (api_error e) = false
is_export_terminal (cannot_generate_key e) = false
is_export_terminal (terminal e) = is_export_terminal e

abbrev pub end_terminal : (ControlError → Bool) → Option ControlError → Option ControlError
end_terminal is_terminal none = none
end_terminal is_terminal (some e) = if is_terminal e then some (terminal e) else some e

-- What stays the same in a manager: `m.client` for each kind of objects, and `m.namespace`; and what
-- the code calls from other packages: `meta.FindStatusCondition`, `meta.SetStatusCondition`,
-- `reflect.DeepEqual` on labels, `ShortenString`, the MD5 sum in hexadecimal, and the texts of errors.
pub record Setup (S : Type 0) : Type 0 where
  pub services : Objects S Service
  pub imports : Objects S Import
  pub exports : Objects S Export
  pub slices : Objects S EndpointSlice
  pub secrets : Objects S Secret
  pub namespace : String
  pub find_status_condition : List Condition → String → Option Condition
  pub set_status_condition : List Condition → Condition → List Condition
  pub same_labels : Map String String → Map String String → Bool
  pub shorten_string : String → ℕ → String
  pub md5_hex : String → String
  pub message : ControlError → String

-- The API server's store, with `m.serviceToImport`, and `m.ports`.
pub record ControlState (S : Type 0) : Type 0 where
  pub services : ServiceState S
  pub ports : PortManager

abbrev pub End : Type 0 → Type 0
End S = ControlState S × Option ControlError

module _ {S : Type 0} where
  abbrev pub store : ControlState S → S
  store m = m.services.store

  abbrev pub with_store : S → ControlState S → ControlState S
  with_store st m = record m {
    services = record { store = st; service_to_import = m.services.service_to_import };
  }

  -- if err := ...; err != nil { return err }
  abbrev pub and_then : End S → (ControlState S → End S) → End S
  and_then (m, none) next = next m
  and_then (m, some e) next = (m, some e)

  -- A loop that returns the first error.
  unfoldable pub for_each {ℓ} :
      {A : Type ℓ} → (A → ControlState S → End S) → List A → ControlState S → End S
  for_each body [] m = (m, none)
  for_each body (x ∷ xs) m = and_then (body x m) (for_each body xs)

  -- The end of a write of the API server.
  abbrev pub wrote : ControlState S → S × Option ApiError → End S
  wrote m (st, none) = (with_store st m, none)
  wrote m (st, some e) = (with_store st m, some (api_error e))

  -- The end of a delete: an object that is not there is no error.
  abbrev pub removed : ControlState S → S × Option ApiError → End S
  removed m (st, none) = (with_store st m, none)
  removed m (st, some e) =
      if is_not_found e then (with_store st m, none) else (with_store st m, some (api_error e))

  -- The end of a call that handles the services of imports.
  abbrev pub served : ControlState S → ServiceState S × Option ServiceError → End S
  served m (services, none) = (record m { services = services }, none)
  served m (services, some e) = (record m { services = services }, some (service_error e))

  -- After the status update: where it fails, its error is returned if there was none before, and
  -- else the error of before, which is then not made terminal.
  abbrev pub status_end :
      (ControlError → Bool) → Option ControlError → ControlState S → S × Option ApiError → End S
  status_end is_terminal before m (st, none) = (with_store st m, end_terminal is_terminal before)
  status_end is_terminal none m (st, some e) = (with_store st m, some (api_error e))
  status_end is_terminal (some before) m (st, some e) = (with_store st m, some before)

module _ {S : Type 0} (w : Setup S) where
  -- `SystemServiceName`
  unfoldable pub system_service_name : NamespacedName → String
  system_service_name name = str_append "import-" (
      str_append (w.shorten_string name.name 10) (
        str_append "-" (
          str_append (w.shorten_string name.namespace 10)
            (str_append "-" (w.md5_hex (str_append name.namespace (str_append "/" name.name)))))))

  -- The condition of this kind, from an error or its absence.
  abbrev pub condition : String → String → Option ControlError → Condition
  condition kind reason none = record {
    kind = kind;
    status = "True";
    reason = reason;
    message = "";
    observed_generation = 0;
    last_transition_time = "";
  }
  condition kind reason (some e) = record {
    kind = kind;
    status = "False";
    reason = "Error";
    message = w.message e;
    observed_generation = 0;
    last_transition_time = "";
  }

  abbrev pub changed : List Condition → Condition → Bool
  changed conditions cond = condition_changed (w.find_status_condition conditions cond.kind) cond
