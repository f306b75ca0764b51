-- ===== src/Control/Releases.antt =====
-- The lease of an import after its handlers.
use clusterlink.Common.{
  ℕ, ◌≡◌, refl, sym, ap, ◌∙◌, inl, inr, Option, none, some, Result, ok, err, str_eq, if◌then◌else◌,
  Bool-cases, Option-cases, ◌==◌, ==_refl,
}
use clusterlink.Common.Maps.{lookup, lookup-delete}
use clusterlink.Crds.Names.{NamespacedName, name_eq}
use clusterlink.Crds.Imports.{Import}
use clusterlink.Kube.{ApiError}
use clusterlink.Ports.{PortManager, PortError, lease, release}
use clusterlink.Ports.Consistency.{IsConsistent, release-IsConsistent}
use clusterlink.Services.{delete_import_service}
use clusterlink.Control.{Setup, ControlState, store, served}
use clusterlink.Control.Imports.{
  with_target_port, port_written, store_port, allocate_target_port, add_import, delete_import,
  delete_system_service,
}
use clusterlink.Control.Leasing.{Keeps, served-Keeps, delete_slices-Keeps, add_import-Keeps}

lookup-release :
    (name n : NamespacedName) (m : PortManager)
    → lookup n (release name m).leases_by_name
      ≡ (if name == n then none else lookup n m.leases_by_name)
unfolding release
lookup-release name n m = elim (Option-cases (lookup name m.leases_by_name)) [
  | inl e ↦ elim (Bool-cases (name == n)) [
    | inr other ↦ rw (e, release, other) refl
    | inl same ↦
        rw (e, release, same)
          (ap (λ k. lookup k m.leases_by_name) (sym ((name_eq.same_key_iff name n).0 same)) ∙ e)
  ]
  | inr (port, e) ↦ rw (e, release) (lookup-delete name n m.leases_by_name)
]

module _ {S : Type 0} (w : Setup S) where
  delete_system-Keeps :
      (name : NamespacedName) (m : ControlState S) → Keeps m.ports (delete_system_service w name m)
  unfolding delete_system_service
  delete_system-Keeps name m = elim (Bool-cases (str_eq name.namespace w.namespace)) [
    | inl g ↦ rw g refl
    | inr g ↦ rw g (served-Keeps m _)
  ]

  delete_import_ports :
      (name : NamespacedName) (m : ControlState S)
      → (delete_import w name m).0.ports ≡ release name m.ports
  unfolding delete_import
  delete_import_ports name m =
      let user = served m (delete_import_service w.services name name m.services) in
      let system = delete_system_service w name user.0 in
      ap (release name) (
        delete_slices-Keeps w name system.0
        ∙ delete_system-Keeps name user.0
        ∙ served-Keeps m (delete_import_service w.services name name m.services))

  -- After a delete of an import its name holds no port, the ports of all other names are as before,
  -- and the leases stay consistent, whichever of the API server's calls failed.
  pub delete_import-lease :
      (name n : NamespacedName) (m : ControlState S)
      → IsConsistent m.ports
      → (lookup n (delete_import w name m).0.ports.leases_by_name
          ≡ (if name == n then none else lookup n m.ports.leases_by_name))
        × IsConsistent (delete_import w name m).0.ports
  delete_import-lease name n m v =
      rw (delete_import_ports name m)
        (lookup-release name n m.ports, release-IsConsistent name m.ports v)

  port_given_back :
      (imp : Import) (m : ControlState S) (ports : PortManager) (r : S × Option ApiError)
      (e : ApiError)
      → r.1 ≡ some e
      → lookup imp.object (port_written w imp m ports r).0.ports.leases_by_name ≡ none
  port_given_back imp m ports (st, none) e h = absurd (cc)
  port_given_back imp m ports (st, some x) e h =
      lookup-release imp.object imp.object ports ∙ rw (==_refl imp.object) refl

  given_back :
      (draws : ℕ → ℕ) (imp : Import) (m : ControlState S) (port : ℕ) (e : ApiError)
      (r : PortManager × Result PortError ℕ)
      → imp.target_port ≡ 0
      → r.1 ≡ ok port
      → (w.imports.update (with_target_port port imp) (store m)).1 ≡ some e
      → lookup imp.object (store_port w imp m r).1.0.ports.leases_by_name ≡ none
  unfolding store_port
  given_back draws imp m port e (ports, err x) z q u = absurd (cc)
  given_back draws imp m port e (ports, ok p) z q u =
      let same : p ≡ port = cc in
      rw z (
        port_given_back imp m ports (w.imports.update (with_target_port p imp) (store m)) e
          (ap (λ (n : ℕ). (w.imports.update (with_target_port n imp) (store m)).1) same ∙ u))

  -- Where the update of an import with its new port fails, its name holds no port after addImport.
  pub failed_update_frees :
      (draws : ℕ → ℕ) (imp : Import) (m : ControlState S) (port : ℕ) (e : ApiError)
      → imp.target_port ≡ 0
      → (lease draws imp.object imp.target_port m.ports).1 ≡ ok port
      → (w.imports.update (with_target_port port imp) (store m)).1 ≡ some e
      → lookup imp.object (add_import w draws imp m).0.ports.leases_by_name ≡ none
  unfolding allocate_target_port
  failed_update_frees draws imp m port e z l u =
      ap (λ (ports : PortManager). lookup imp.object ports.leases_by_name)
        (add_import-Keeps w draws imp m)
      ∙ given_back draws imp m port e (lease draws imp.object imp.target_port m.ports) z l u
