-- ===== src/Control/Errors.antt =====
-- Which errors the handlers of imports and exports return, whatever their status updates do.
use clusterlink.Common.{
  ◌≡◌, ◌≢◌, refl, ◌⊎◌, inl, inr, Bool, true, false, ◌||◌, Option, none, some, ok, arith, str_eq,
  eq_iff, Bool-cases, Result-cases,
}
use clusterlink.Crds.Imports.{Import}
use clusterlink.Crds.Peers.{Export}
use clusterlink.Kube.{ApiError, is_not_found}
use clusterlink.Services.{Service}
use clusterlink.Control.{
  Setup, ControlState, ControlError, End, store, api_error, terminal, end_terminal, status_end,
  is_import_terminal, is_export_terminal, changed, condition,
}
use clusterlink.Control.Imports.{expose_import}
use clusterlink.Control.Exports.{verify_export, finish_export, add_export}

-- What is returned where no status update fails: an error that ends the reconciliation is made terminal,
-- and another one stays.
abbrev pub IsClosed : (ControlError → Bool) → Option ControlError → Option ControlError → Type 0
IsClosed is_terminal none out = out ≡ none
IsClosed is_terminal (some e) out =
    ((is_terminal e ≡ true) × (out ≡ some (terminal e)))
    ⊎ ((is_terminal e ≡ false) × (out ≡ some e))

-- What is returned where the status update fails with `x`.
abbrev pub IsJoined : Option ControlError → ApiError → Option ControlError → Type 0
IsJoined none x out = out ≡ some (api_error x)
IsJoined (some e) x out = out ≡ some e

-- What is returned for the error before the deferred function: `needed` says whether there is a status
-- update, and `update` is what it returns.
abbrev pub Reported :
    (ControlError → Bool)
    → Bool
    → Option ApiError
    → Option ControlError
    → Option ControlError
    → Type 0
Reported is_terminal false update before out = IsClosed is_terminal before out
Reported is_terminal true none before out = IsClosed is_terminal before out
Reported is_terminal true (some x) before out = IsJoined before x out

module _ {S : Type 0} (w : Setup S) where
  -- Whether one of the two conditions of an import changed.
  abbrev pub import_needs_update : Import → Option ControlError → Option ControlError → Bool
  import_needs_update imp port_error error =
      changed w imp.conditions (condition w "ImportServiceValid" "Valid" error)
      || changed w imp.conditions (condition w "ImportTargetPortValid" "Leased" port_error)

  -- What the update of the status returns: it writes the import with both conditions.
  abbrev pub import_update :
      Import → Option ControlError → Option ControlError → ControlState S → Option ApiError
  import_update imp port_error error m =
      (w.imports.update_status
        (record imp {
          conditions =
              w.set_status_condition
                (w.set_status_condition imp.conditions
                  (condition w "ImportTargetPortValid" "Leased" port_error))
                (condition w "ImportServiceValid" "Valid" error);
        })
        (store m)).1

  abbrev pub ImportReported :
      Import
      → Option ControlError
      → Option ControlError
      → ControlState S
      → Option ControlError
      → Type 0
  ImportReported imp port_error error m out =
      Reported is_import_terminal (import_needs_update imp port_error error)
        (import_update imp port_error error m) error out

  -- For the import after its target port: an error of the port is the error of both conditions, and else
  -- the error of the services or the endpoint slices is that of the condition of the service.
  abbrev pub PortReported : Import × End S → Option ControlError → Type 0
  PortReported (imp, (m, some e)) out = ImportReported imp (some e) (some e) m out
  PortReported (imp, (m, none)) out =
      ImportReported imp none (expose_import w imp m).1 (expose_import w imp m).0 out

  no_error :
      (t : ControlError → Bool) (e : Option ControlError) → end_terminal t e ≡ none → e ≡ none
  no_error t none h = refl
  no_error t (some e) h = elim (Bool-cases (t e)) [
    | inl q ↦ absurd (let h' = rw q at h in cc h')
    | inr q ↦ absurd (let h' = rw q at h in cc h')
  ]

  no_error_before :
      (t : ControlError → Bool) (e : Option ControlError) (m : ControlState S)
      (r : S × Option ApiError)
      → (status_end t e m r).1 ≡ none
      → e ≡ none
  no_error_before t e m (st, none) h = no_error t e h
  no_error_before t none m (st, some x) h = refl
  no_error_before t (some e) m (st, some x) h = absurd (cc h)

  finish_export-none :
      (export : Export) (e : Option ControlError) (m : ControlState S)
      → (finish_export w export e m).1 ≡ none
      → e ≡ none
  unfolding finish_export
  finish_export-none export e m h =
      elim (Bool-cases (changed w export.conditions (condition w "ExportValid" "Verified" e))) [
        | inl c ↦ no_error_before is_export_terminal e m _ (rw c at h)
        | inr c ↦ no_error is_export_terminal e (rw c at h)
      ]

  service_found :
      (export : Export) (m : ControlState S)
      → verify_export w export m ≡ none
      → (export.host ≢ "") ⊎ ((s : Service) × (w.services.get export.object (store m) ≡ ok s))
  unfolding verify_export
  service_found export m h = elim (Bool-cases (str_eq export.host "")) [
    | inr named ↦ inl (λ q. ground (arith, eq_iff export.host ""))
    | inl unnamed ↦ elim (Result-cases (w.services.get export.object (store m))) [
      | inl (s, g) ↦ inr (s, g)
      | inr (e, g) ↦ elim (Bool-cases (is_not_found e)) [
        | inl missing ↦ absurd (let h' = rw (unnamed, g, missing) at h in cc)
        | inr broken ↦ absurd (let h' = rw (unnamed, g, broken) at h in cc)
      ]
    ]
  ]

  -- An export is added without an error only where it names a host, or its service is there.
  pub add_export_valid :
      (export : Export) (m : ControlState S)
      → (add_export w export m).1 ≡ none
      → (export.host ≢ "") ⊎ ((s : Service) × (w.services.get export.object (store m) ≡ ok s))
  unfolding add_export
  add_export_valid export m h =
      service_found export m (finish_export-none export (verify_export w export m) m h)
