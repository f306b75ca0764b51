-- ===== src/Control/Watch.antt =====
-- The map from services in the namespace of the system to imports, between the handler that makes an
-- entry and the handler that reads it.
use clusterlink.Common.{
  ℕ, ◌≡◌, ◌≢◌, refl, ap, ◌∙◌, inl, inr, String, false, Option, none, some, Result, ok, err, arith,
  str_eq, eq_iff, Bool-cases, string_eq,
}
use clusterlink.Common.Maps.{Map, lookup, lookup-insert_self}
use clusterlink.Crds.Names.{NamespacedName}
use clusterlink.Crds.Imports.{Import}
use clusterlink.Kube.{ApiError, not_found, is_not_found, Objects}
use clusterlink.Services.{
  Service, ServiceState, ServiceError, check_service_labels, service_changed, labelled, names_after,
  put_service, add_import_service, written,
}
use clusterlink.Control.{Setup, ControlState, End, store, and_then, served, system_service_name}
use clusterlink.Control.Imports.{system_added, cluster_service, service_name, add_import}
use clusterlink.Control.Events.{
  check_import, check_mapped_import, check_import_service, check_export_service, service_event,
}

module _ {S : Type 0} (client : Objects S Service) where
  written_names :
      (names : Map String NamespacedName) (r : S × Option ApiError)
      → (written client names r).0.service_to_import ≡ names
  written_names names (st, none) = refl
  written_names names (st, some e) = refl

  put_names :
      (imp : NamespacedName) (s : Service) (st : S) (names : Map String NamespacedName)
      (r : Result ApiError Service)
      → (put_service client imp s st names r).0.service_to_import ≡ names
  unfolding put_service
  put_names imp s st names (err e) = elim (Bool-cases (is_not_found e)) [
    | inl h ↦ rw h (written_names names (client.create s st))
    | inr h ↦ rw h refl
  ]
  put_names imp s st names (ok old) = elim (Bool-cases (check_service_labels old imp)) [
    | inr h ↦ rw h refl
    | inl h ↦ elim (Bool-cases (service_changed old s)) [
      | inr g ↦ rw (h, g) refl
      | inl g ↦ rw (h, g) (written_names names (client.update s st))
    ]
  ]

  add_names :
      (imp : NamespacedName) (s : Service) (m : ServiceState S)
      → (add_import_service client imp s m).0.service_to_import ≡ names_after client imp s m
  unfolding add_import_service
  add_names imp s m =
      put_names imp (labelled imp s) m.store (names_after client imp s m)
        (client.get s.object m.store)

served_services :
    {S : Type 0} (m : ControlState S) (r : ServiceState S × Option ServiceError)
    → (served m r).0.services ≡ r.0
served_services m (s, none) = refl
served_services m (s, some e) = refl

module _ {S : Type 0} (w : Setup S) (imp : Import) (m : ControlState S) where
  abbrev system_service : NamespacedName
  system_service = record { namespace = w.namespace; name = system_service_name w imp.object }

  mapped :
      imp.object.namespace ≢ w.namespace
      → lookup
          (system_service_name w imp.object)
          (served m (system_added w imp m)).0.services.service_to_import
        ≡ some imp.object
  mapped out =
      let other : str_eq imp.object.namespace w.namespace ≡ false =
        ground (arith, eq_iff imp.object.namespace w.namespace) in
      ap (λ (s : ServiceState S). lookup (system_service_name w imp.object) s.service_to_import)
        (served_services m (system_added w imp m))
      ∙ ap (lookup (system_service_name w imp.object)) (
          add_names w.services imp.object
            (cluster_service (record { namespace = w.namespace; name = service_name w imp.object })
              imp)
            m.services)
      ∙ rw other (
          lookup-insert_self (system_service_name w imp.object) imp.object
            m.services.service_to_import)

  missing_import :
      (draws : ℕ → ℕ) (name : NamespacedName) (m' : ControlState S)
      → w.imports.get name (store m') ≡ err not_found
      → check_import w draws name m' ≡ (m', none)
  unfolding check_import
  missing_import draws name m' q = rw (q, check_import) refl

  found_import :
      (draws : ℕ → ℕ) (name : NamespacedName) (latest : Import) (m' : ControlState S)
      → w.imports.get name (store m') ≡ ok latest
      → check_import w draws name m' ≡ add_import w draws latest m'
  unfolding check_import
  found_import draws name latest m' q = rw (q, check_import) refl

  mapped_import :
      (draws : ℕ → ℕ)
      → imp.object.namespace ≢ w.namespace
      → let m' = (served m (system_added w imp m)).0 in
        check_mapped_import w draws system_service m' ≡ check_import w draws imp.object m'
  unfolding check_mapped_import
  mapped_import draws out = rw ((eq_iff w.namespace w.namespace).1 refl) (rw (mapped out) refl)

  event_lem :
      (draws draws₂ : ℕ → ℕ) (name : NamespacedName) (m' : ControlState S)
      → check_import w draws name m' ≡ (m', none)
      → service_event w draws draws₂ name m'
        ≡ and_then (check_mapped_import w draws₂ name m') (check_export_service w name)
  unfolding service_event check_import_service
  event_lem draws draws₂ name m' q =
      ap
        (λ (e : End S).
          and_then (and_then e (check_mapped_import w draws₂ name)) (check_export_service w name))
        q

  -- Once the system service of an import of another namespace was added, whatever the API server
  -- answered, an event for a service of that name adds the import again as it then is in the store, if
  -- there is no import with the name of the service itself; after that, if there was no error, it checks
  -- the export of the service's name.
  pub system_service_watched :
      (draws draws₂ : ℕ → ℕ) (latest : Import)
      → imp.object.namespace ≢ w.namespace
      → let m' = (served m (system_added w imp m)).0 in
        w.imports.get system_service (store m') ≡ err not_found
        → w.imports.get imp.object (store m') ≡ ok latest
        → service_event w draws draws₂ system_service m'
          ≡ and_then (add_import w draws₂ latest m') (check_export_service w system_service)
  system_service_watched draws draws₂ latest out own found =
      let m' = (served m (system_added w imp m)).0 in
      event_lem draws draws₂ system_service m' (missing_import draws system_service m' own)
      ∙ ap (λ (e : End S). and_then e (check_export_service w system_service))
          (mapped_import draws₂ out ∙ found_import draws₂ imp.object latest m' found)
