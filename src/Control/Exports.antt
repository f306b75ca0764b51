-- ===== src/Control/Exports.antt =====
-- addExport of pkg/controlplane/control/manager.go, with its deferred end.
use clusterlink.Common.{not, Option, none, some, ok, err, if◌then◌else◌, str_eq}
use clusterlink.Crds.Peers.{Export, export_valid}
use clusterlink.Kube.{is_not_found}
use clusterlink.Control.{
  Setup, ControlState, ControlError, End, store, api_error, export_service_not_exist, condition,
  changed, status_end, end_terminal, is_export_terminal,
}

module _ {S : Type 0} (w : Setup S) where
  -- The error before the deferred function.
  unfoldable pub verify_export : Export → ControlState S → Option ControlError
  verify_export export m =
      if not (str_eq export.host "") then none else elim (w.services.get export.object (store m)) [
        | ok service ↦ none
        | err e ↦
            if not (is_not_found e)
            then some (api_error e)
            else some (export_service_not_exist export.object)
      ]

  unfoldable pub finish_export : Export → Option ControlError → ControlState S → End S
  finish_export export error m =
      let cond = condition w export_valid "Verified" error in
      if changed w export.conditions cond
      then status_end is_export_terminal error m (
          w.exports.update_status
            (record export { conditions = w.set_status_condition export.conditions cond })
            (store m))
      else (m, end_terminal is_export_terminal error)

  unfoldable pub add_export : Export → ControlState S → End S
  unfolding verify_export finish_export
  add_export export m = finish_export export (verify_export export m) m
