-- ===== src/Control/Leasing.antt =====
-- What the handlers of imports do to the leases of ports.
use clusterlink.Common.{
  ℕ, ◌≡◌, refl, sym, ◌∙◌, inl, inr, Bool, ◌||◌, Option, none, some, List, [], ◌∷◌, Result, ok, err,
  arith, nat_eq, nat_eq_iff, str_eq, subst, Bool-cases, ℕ_eq,
}
use clusterlink.Common.Maps.{lookup}
use clusterlink.Crds.Names.{NamespacedName, name_eq}
use clusterlink.Crds.Imports.{Import}
use clusterlink.Kube.{ApiError, is_not_found}
use clusterlink.Ports.{PortManager, PortError, lease, get_random_free_port}
use clusterlink.Ports.Consistency.{IsConsistent, release-IsConsistent}
use clusterlink.Ports.Leases.{lease_specific, lease_random-IsConsistent}
use clusterlink.Services.{Service, ServiceState, ServiceError}
use clusterlink.Slices.{EndpointSlice, endpoint_slice_changed}
use clusterlink.Control.{
  Setup, ControlState, ControlError, End, store, and_then, for_each, wrote, removed, served,
  status_end, is_import_terminal, changed, condition,
}
use clusterlink.Control.EndpointSlices.{
  is_merge, import_endpoint_slice, put_slice, check_import_endpoint_slice, is_dataplane_slice,
  is_slice_of, add_import_endpoint_slices, delete_slice, delete_found, copy_found, copy_to_service,
  delete_import_endpoint_slices,
}
use clusterlink.Control.Imports.{
  with_target_port, port_written, store_port, allocate_target_port, expose_user, system_added,
  expose_system, expose_import, finish_import, after_port, add_import,
}

module _ {S : Type 0} where
  -- A handler's end that left the leases as they were.
  abbrev pub Keeps : PortManager → End S → Type 0
  Keeps ports end = end.0.ports ≡ ports

  wrote-Keeps : (m : ControlState S) (r : S × Option ApiError) → Keeps m.ports (wrote m r)
  wrote-Keeps m (st, none) = refl
  wrote-Keeps m (st, some e) = refl

  removed-Keeps : (m : ControlState S) (r : S × Option ApiError) → Keeps m.ports (removed m r)
  removed-Keeps m (st, none) = refl
  removed-Keeps m (st, some e) = elim (Bool-cases (is_not_found e)) [
    | inl h ↦ rw h refl
    | inr h ↦ rw h refl
  ]

  pub served-Keeps :
      (m : ControlState S) (r : ServiceState S × Option ServiceError) → Keeps m.ports (served m r)
  served-Keeps m (st, none) = refl
  served-Keeps m (st, some e) = refl

  and_then-Keeps :
      (ports : PortManager) (end : End S) (next : ControlState S → End S)
      → Keeps ports end
      → ((m : ControlState S) → Keeps m.ports (next m))
      → Keeps ports (and_then end next)
  and_then-Keeps ports (m, none) next h k = k m ∙ h
  and_then-Keeps ports (m, some e) next h k = h

  for_each-Keeps :
      {A : Type 0} (body : A → ControlState S → End S) (xs : List A) (m : ControlState S)
      → ((x : A) (m : ControlState S) → Keeps m.ports (body x m))
      → Keeps m.ports (for_each body xs m)
  unfolding for_each
  for_each-Keeps body [] m k = refl
  for_each-Keeps body (x ∷ xs) m k =
      and_then-Keeps m.ports (body x m) (for_each body xs) (k x m)
        (λ m'. for_each-Keeps body xs m' k)

  status_end-Keeps :
      (t : ControlError → Bool) (e : Option ControlError) (m : ControlState S)
      (r : S × Option ApiError)
      → Keeps m.ports (status_end t e m r)
  status_end-Keeps t e m (st, none) = refl
  status_end-Keeps t none m (st, some x) = refl
  status_end-Keeps t (some e) m (st, some x) = refl

module _ {S : Type 0} (w : Setup S) where
  put_slice-Keeps :
      (s : EndpointSlice) (m : ControlState S) (r : Result ApiError EndpointSlice)
      → Keeps m.ports (put_slice w s m r)
  unfolding put_slice
  put_slice-Keeps s m (err e) = elim (Bool-cases (is_not_found e)) [
    | inl h ↦ rw h (wrote-Keeps m (w.slices.create s (store m)))
    | inr h ↦ rw h refl
  ]
  put_slice-Keeps s m (ok old) = elim (Bool-cases (endpoint_slice_changed w.same_labels s old)) [
    | inl h ↦ rw h (wrote-Keeps m (w.slices.update s (store m)))
    | inr h ↦ rw h refl
  ]

  check_slice-Keeps :
      (imp : Import) (dp : EndpointSlice) (m : ControlState S)
      → Keeps m.ports (check_import_endpoint_slice w imp dp m)
  unfolding check_import_endpoint_slice
  check_slice-Keeps imp dp m =
      let wanted = import_endpoint_slice imp dp in
      put_slice-Keeps wanted m (w.slices.get wanted.object (store m))

  copy_found-Keeps :
      (imp : Import) (m : ControlState S) (r : Result ApiError (List EndpointSlice))
      → Keeps m.ports (copy_found w imp m r)
  unfolding copy_found
  copy_found-Keeps imp m (err e) = refl
  copy_found-Keeps imp m (ok found) =
      for_each-Keeps (check_import_endpoint_slice w imp) found m (check_slice-Keeps imp)

  copy_to_service-Keeps :
      (imp : Import) (m : ControlState S) (r : Result ApiError Service)
      → Keeps m.ports (copy_to_service w imp m r)
  unfolding copy_to_service
  copy_to_service-Keeps imp m (err e) = elim (Bool-cases (is_not_found e)) [
    | inl g ↦ rw g refl
    | inr g ↦ rw g refl
  ]
  copy_to_service-Keeps imp m (ok s) =
      copy_found-Keeps imp m (w.slices.list (is_dataplane_slice w) (store m))

  add_slices-Keeps :
      (imp : Import) (m : ControlState S) → Keeps m.ports (add_import_endpoint_slices w imp m)
  unfolding add_import_endpoint_slices
  add_slices-Keeps imp m = copy_to_service-Keeps imp m (w.services.get imp.object (store m))

  delete_found-Keeps :
      (m : ControlState S) (r : Result ApiError (List EndpointSlice))
      → Keeps m.ports (delete_found w m r)
  unfolding delete_found delete_slice
  delete_found-Keeps m (err e) = refl
  delete_found-Keeps m (ok found) =
      for_each-Keeps (delete_slice w) found m
        (λ s m'. removed-Keeps m' (w.slices.remove s.object (store m')))

  pub delete_slices-Keeps :
      (name : NamespacedName) (m : ControlState S)
      → Keeps m.ports (delete_import_endpoint_slices w name m)
  unfolding delete_import_endpoint_slices
  delete_slices-Keeps name m = delete_found-Keeps m (w.slices.list (is_slice_of w name) (store m))

  user-Keeps : (imp : Import) (m : ControlState S) → Keeps m.ports (expose_user w imp m)
  unfolding expose_user
  user-Keeps imp m = elim (Bool-cases (str_eq imp.object.namespace w.namespace)) [
    | inl g ↦ rw g refl
    | inr g ↦ rw g (served-Keeps m _)
  ]

  system-Keeps : (imp : Import) (m : ControlState S) → Keeps m.ports (expose_system w imp m)
  unfolding expose_system
  system-Keeps imp m =
      and_then-Keeps m.ports (served m (system_added w imp m)) (expose_user w imp)
        (served-Keeps m (system_added w imp m)) (user-Keeps imp)

  expose-Keeps : (imp : Import) (m : ControlState S) → Keeps m.ports (expose_import w imp m)
  unfolding expose_import
  expose-Keeps imp m = elim (Bool-cases (is_merge imp)) [
    | inl h ↦ rw h (add_slices-Keeps imp m)
    | inr h ↦ rw h (
        and_then-Keeps m.ports (delete_import_endpoint_slices w imp.object m) (expose_system w imp)
          (delete_slices-Keeps imp.object m) (system-Keeps imp))
  ]

  finish-Keeps :
      (imp : Import) (pe e : Option ControlError) (m : ControlState S)
      → Keeps m.ports (finish_import w imp pe e m)
  unfolding finish_import
  finish-Keeps imp pe e m =
      elim (Bool-cases (
        changed w imp.conditions (condition w "ImportServiceValid" "Valid" e)
        || changed w imp.conditions (condition w "ImportTargetPortValid" "Leased" pe))) [
          | inl h ↦ rw h (status_end-Keeps is_import_terminal e m _)
          | inr h ↦ rw h refl
        ]

  -- The handler's leases are those of the allocation.
  after_port-Keeps : (r : Import × End S) → Keeps r.1.0.ports (after_port w r)
  unfolding after_port
  after_port-Keeps (imp, (m, some e)) = finish-Keeps imp (some e) (some e) m
  after_port-Keeps (imp, (m, none)) =
      let exposed = expose_import w imp m in
      finish-Keeps imp none exposed.1 exposed.0 ∙ expose-Keeps imp m

  pub add_import-Keeps :
      (draws : ℕ → ℕ) (imp : Import) (m : ControlState S)
      → Keeps (allocate_target_port w draws imp m).1.0.ports (add_import w draws imp m)
  unfolding add_import
  add_import-Keeps draws imp m = after_port-Keeps (allocate_target_port w draws imp m)

  store_port-IsConsistent :
      (imp : Import) (m : ControlState S) (r : PortManager × Result PortError ℕ)
      → IsConsistent r.0
      → IsConsistent (store_port w imp m r).1.0.ports
  unfolding store_port
  store_port-IsConsistent imp m (ports, err e) v = v
  store_port-IsConsistent imp m (ports, ok port) v = elim (Bool-cases (nat_eq imp.target_port 0)) [
    | inr h ↦ rw h v
    | inl h ↦ rw h (written-IsConsistent (w.imports.update (with_target_port port imp) (store m)))
  ]
    where
      written-IsConsistent :
          (r : S × Option ApiError) → IsConsistent (port_written w imp m ports r).0.ports
      written-IsConsistent (st, none) = v
      written-IsConsistent (st, some e) = release-IsConsistent imp.object ports v

  -- To add an import keeps the leases consistent, whatever the API server answers, where a port that
  -- has to be drawn is free.
  pub add_import-IsConsistent :
      (draws : ℕ → ℕ) (imp : Import) (m : ControlState S)
      → IsConsistent m.ports
      → lookup (get_random_free_port m.ports draws) m.ports.leases_by_port ≡ none
      → IsConsistent (add_import w draws imp m).0.ports
  unfolding allocate_target_port
  add_import-IsConsistent draws imp m v free =
      subst IsConsistent (sym (add_import-Keeps draws imp m))
        (store_port-IsConsistent imp m (lease draws imp.object imp.target_port m.ports) leased)
    where
      leased : IsConsistent (lease draws imp.object imp.target_port m.ports).0
      leased = elim (Bool-cases (nat_eq imp.target_port 0)) [
        | inl h ↦
            rw ((nat_eq_iff imp.target_port 0).0 h)
              (lease_random-IsConsistent imp.object m.ports draws v free)
        | inr h ↦
            elim (lease_specific imp.object imp.target_port m.ports draws (λ z. ground arith) v) [
              | inl (holder, e, d, q) ↦ rw q v
              | inr (free_port, l, c) ↦ c
            ]
      ]
