-- ===== src/Services/Desired.antt =====
-- What the two operations leave in the store.
use clusterlink.Common.{
  ◌≡◌, refl, ap, ap₂, ◌∙◌, inl, inr, String, true, false, Option, none, some, List, [], ◌∷◌, Result,
  ok, err, arith, str_eq, eq_iff, All, All-map, Bool-cases, Option-cases, string_eq, length,
}
use clusterlink.Common.Maps.{Map, lookup, insert, delete, IsDistinct}
use clusterlink.Crds.Names.{NamespacedName}
use clusterlink.Kube.{ApiError, is_not_found, Objects}
use clusterlink.Services.{
  Service, ServicePort, ServiceState, label_import_namespace, label_of, has_label,
  check_service_labels, selector_differs, ports_differ, service_changed, labelled, names_after,
  put_service, add_import_service, written, deleted, remove_service, delete_import_service,
}

ports_differ_self : (xs : List ServicePort) → ports_differ xs xs ≡ false
unfolding ports_differ
ports_differ_self [] = refl
ports_differ_self (x ∷ xs) = ground (arith, eq_iff x.protocol x.protocol, ports_differ_self xs)

-- Each entry of the first map stands in the second.
abbrev pub Held : Map String String → Map String String → Type 0
Held xs m = All (λ (e : String × String). lookup e.0 m ≡ some e.1) xs

has_label_lem :
    (k v : String) (m : Map String String) → has_label k v m ≡ true → lookup k m ≡ some v
has_label_lem k v m h = elim (Option-cases (lookup k m)) [
  | inl q ↦ absurd (let h' = rw (q, has_label) at h in cc h')
  | inr (x, q) ↦ q ∙ ap some ((eq_iff x v).0 (rw (q, has_label) at h))
]

selector-Held : (xs m : Map String String) → Held xs m → selector_differs xs m ≡ false
unfolding selector_differs
selector-Held [] m h = refl
selector-Held ((k, v) ∷ rest) m h = ground (arith, h.0, eq_iff v v, selector-Held rest m h.1)

held_later :
    (k v : String) (rest : Map String String) (e : String × String)
    → lookup k rest ≡ none
    → lookup e.0 rest ≡ some e.1
    → lookup e.0 ((k, v) ∷ rest) ≡ some e.1
unfolding lookup
held_later k v rest e out h = ground (arith, eq_iff k e.0)

Held-self : (m : Map String String) → IsDistinct m → Held m m
unfolding lookup
Held-self [] d = tt
Held-self ((k, v) ∷ rest) d = (
  ground (arith, eq_iff k k),
  All-map (λ e h. held_later k v rest e d.0 h) rest (Held-self rest d.1),
)

ports_lem :
    (xs ys : List ServicePort) → length xs ≡ length ys → ports_differ xs ys ≡ false → xs ≡ ys
unfolding ports_differ
ports_lem [] [] l h = refl
ports_lem [] (y ∷ ys) l h = absurd (omega (arith, l))
ports_lem (x ∷ xs) [] l h = absurd (omega (arith, l))
ports_lem (x ∷ xs) (y ∷ ys) l h =
    let protocol : x.protocol ≡ y.protocol = ground (arith, eq_iff x.protocol y.protocol) in
    let port : x.port ≡ y.port = ground arith in
    let target : x.target_port ≡ y.target_port = ground arith in
    let same : x ≡ y = cc in
    ap₂ (λ (z : ServicePort) (zs : List ServicePort). z ∷ zs) same
      (ports_lem xs ys (omega arith) (ground arith))

selector_lem : (xs m : Map String String) → selector_differs xs m ≡ false → Held xs m
unfolding selector_differs
selector_lem [] m h = tt
selector_lem ((k, v) ∷ rest) m h =
    (has_label_lem k v m (ground arith), selector_lem rest m (ground arith))

-- What the fields of a service have to be, whatever counts as a change.
abbrev pub AreAlike : Service → Service → Type 0
AreAlike a b =
    (a.service_type ≡ b.service_type)
    × (a.external_name ≡ b.external_name)
    × (length a.selector ≡ length b.selector)
    × Held a.selector b.selector
    × (a.ports ≡ b.ports)

service_lem : (a b : Service) → service_changed a b ≡ false → AreAlike a b
unfolding service_changed
service_lem a b h = (
  ground (arith, eq_iff a.service_type b.service_type),
  ground (arith, eq_iff a.external_name b.external_name),
  ground arith,
  selector_lem a.selector b.selector (ground arith),
  ports_lem a.ports b.ports (ground arith) (ground arith),
)

-- The three labels of a service that is managed for an import.
abbrev pub IsManagedFor : Service → NamespacedName → Type 0
IsManagedFor s imp =
    (lookup "app.kubernetes.io/managed-by" s.labels ≡ some "clusterlink.net")
    × (lookup "clusterlink.net/import-name" s.labels ≡ some imp.name)
    × (lookup "clusterlink.net/import-namespace" s.labels ≡ some imp.namespace)

check_service_labels-IsManagedFor :
    (s : Service) (imp : NamespacedName) → check_service_labels s imp ≡ true → IsManagedFor s imp
unfolding check_service_labels
check_service_labels-IsManagedFor s imp h = (
  has_label_lem _ _ s.labels (ground arith),
  has_label_lem _ _ s.labels (ground arith),
  has_label_lem _ _ s.labels (ground arith),
)

service_changed_self : (s : Service) → IsDistinct s.selector → service_changed s s ≡ false
unfolding service_changed
service_changed_self s d = ground (
  arith,
  eq_iff s.service_type s.service_type,
  eq_iff s.external_name s.external_name,
  selector-Held s.selector s.selector (Held-self s.selector d),
  ports_differ_self s.ports,
)

labelled_lem :
    (imp : NamespacedName) (s : Service) → check_service_labels (labelled imp s) imp ≡ true
unfolding check_service_labels lookup insert delete
labelled_lem imp s = ground (arith, eq_iff imp.namespace imp.namespace, eq_iff imp.name imp.name)

-- The API server's documented behaviour: what was created or updated without an error is what the
-- next Get returns.
pub record KeepsWrites {S : Type 0} (client : Objects S Service) : Type 0 where
  pub keeps_create :
      (s : Service) (st : S)
      → (client.create s st).1 ≡ none
      → client.get s.object (client.create s st).0 ≡ ok s
  pub keeps_update :
      (s : Service) (st : S)
      → (client.update s st).1 ≡ none
      → client.get s.object (client.update s st).0 ≡ ok s

module _ {S : Type 0} (client : Objects S Service) (imp : NamespacedName) (service : Service)
    (m : ServiceState S) where
  -- The service in the store is the wanted one.
  abbrev pub IsDesired : S → Type 0
  IsDesired st =
      (s : Service) × (client.get service.object st ≡ ok s)
      × IsManagedFor s imp
      × AreAlike s service

  written-IsDesired :
      (names : Map String NamespacedName) (w : S × Option ApiError)
      → IsDistinct service.selector
      → (w.1 ≡ none → client.get service.object w.0 ≡ ok (labelled imp service))
      → (written client names w).1 ≡ none
      → IsDesired (written client names w).0.store
  written-IsDesired names (st, none) d kept h = (
    labelled imp service,
    kept refl,
    check_service_labels-IsManagedFor (labelled imp service) imp (labelled_lem imp service),
    service_lem (labelled imp service) (labelled imp service)
        (service_changed_self (labelled imp service) d),
  )
  written-IsDesired names (st, some e) d kept h = absurd (cc)

  put-IsDesired :
      (names : Map String NamespacedName) (r : Result ApiError Service)
      → IsDistinct service.selector
      → KeepsWrites client
      → client.get service.object m.store ≡ r
      → (put_service client imp (labelled imp service) m.store names r).1 ≡ none
      → IsDesired (put_service client imp (labelled imp service) m.store names r).0.store
  unfolding put_service
  put-IsDesired names (err e) d keeps q h = elim (Bool-cases (is_not_found e)) [
    | inr broken ↦ absurd (ground arith)
    | inl missing ↦ rw missing (
        written-IsDesired names (client.create (labelled imp service) m.store) d
          (keeps.keeps_create (labelled imp service) m.store) (rw missing at h))
  ]
  put-IsDesired names (ok old) d keeps q h = elim (Bool-cases (check_service_labels old imp)) [
    | inr foreign ↦ absurd (ground arith)
    | inl own ↦ elim (Bool-cases (service_changed old (labelled imp service))) [
      | inr same ↦
          rw (own, same)
            (
              old,
              q,
              check_service_labels-IsManagedFor old imp own,
              service_lem old (labelled imp service) same,
            )
      | inl changed ↦
          rw (own, changed)
            (written-IsDesired names (client.update (labelled imp service) m.store) d
              (keeps.keeps_update (labelled imp service) m.store) (rw (own, changed) at h))
    ]
  ]

  -- Where an import's service is added without an error, the store has a service of its name that is
  -- labelled as managed for this import, with the type, the external name, the selector and the ports of the
  -- wanted one.
  pub add_import_service-IsDesired :
      IsDistinct service.selector
      → KeepsWrites client
      → (add_import_service client imp service m).1 ≡ none
      → IsDesired (add_import_service client imp service m).0.store
  unfolding add_import_service
  add_import_service-IsDesired d keeps h =
      put-IsDesired (names_after client imp service m) (client.get service.object m.store) d keeps
        refl h

own_label :
    (s : Service) (imp : NamespacedName)
    → check_service_labels s imp ≡ true
    → str_eq (label_of label_import_namespace s) imp.namespace ≡ true
unfolding check_service_labels
own_label s imp h = ground (arith, eq_iff imp.namespace (label_of label_import_namespace s))

module _ {S : Type 0} (client : Objects S Service) (name imp : NamespacedName)
    (m : ServiceState S) where
  deleted_names :
      (old : Service) (w : S × Option ApiError)
      → str_eq (label_of label_import_namespace old) imp.namespace ≡ true
      → (deleted client name imp old m.service_to_import w).0.service_to_import
        ≡ m.service_to_import
  deleted_names old (st, none) e = rw e refl
  deleted_names old (st, some x) e = refl

  remove_names :
      (r : Result ApiError Service)
      → (remove_service client name imp m r).0.service_to_import ≡ m.service_to_import
  unfolding remove_service
  remove_names (err e) = elim (Bool-cases (is_not_found e)) [
    | inl a ↦ rw a refl
    | inr a ↦ rw a refl
  ]
  remove_names (ok old) = elim (Bool-cases (check_service_labels old imp)) [
    | inl own ↦ rw own (deleted_names old (client.remove name m.store) (own_label old imp own))
    | inr foreign ↦ rw foreign refl
  ]

  -- To delete the service of an import never takes an entry off serviceToImport, whatever the
  -- namespaces of the service and the import are.
  pub delete_import_service_names :
      (delete_import_service client name imp m).0.service_to_import ≡ m.service_to_import
  unfolding delete_import_service
  delete_import_service_names = remove_names (client.get name m.store)
