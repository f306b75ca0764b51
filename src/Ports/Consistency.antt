-- ===== src/Ports/Consistency.antt =====
-- The two maps of the port manager say the same, after every operation.
use clusterlink.Common.{
  ℕ, ◌≡◌, refl, sym, ◌∙◌, ◌⊎◌, inl, inr, Option, none, some, arith, nat_eq, if◌then◌else◌, ℕ_eq,
  ◌==◌, Option-cases,
}
use clusterlink.Common.Maps.{Map, lookup, delete, lookup-insert, lookup-delete}
use clusterlink.Crds.Names.{NamespacedName, same_name_iff, name_eq}
use clusterlink.Ports.{PortManager, mark, new_port_manager, release}

-- A port belongs to a name exactly where the name holds the port.
pub record IsConsistent (m : PortManager) : Type 0 where
  pub to_port :
      (n : NamespacedName) (p : ℕ)
      → lookup n m.leases_by_name ≡ some p
      → lookup p m.leases_by_port ≡ some n
  pub to_name :
      (n : NamespacedName) (p : ℕ)
      → lookup p m.leases_by_port ≡ some n
      → lookup n m.leases_by_name ≡ some p

pub new-IsConsistent : IsConsistent new_port_manager
unfolding new_port_manager lookup
new-IsConsistent = record { to_port = λ n p h. cc; to_name = λ n p h. cc }

mark_by_name :
    (name n : NamespacedName) (port : ℕ) (m : PortManager)
    → lookup n (mark name port m).leases_by_name
      ≡ (if name == n then some port else lookup n m.leases_by_name)
mark_by_name name n port m = lookup-insert name n port m.leases_by_name

-- What a port belongs to once the previous port of a name was freed.
abbrev freed_by : Option ℕ → ℕ → Option NamespacedName → Option NamespacedName
freed_by none p holder = holder
freed_by (some old) p holder = if nat_eq old p then none else holder

lookup-freed :
    (o : Option ℕ) (p : ℕ) (m : Map ℕ NamespacedName)
    → lookup p (elim o [ some old ↦ delete old m | none ↦ m ]) ≡ freed_by o p (lookup p m)
lookup-freed none p m = refl
lookup-freed (some old) p m = lookup-delete old p m

mark_by_port :
    (name : NamespacedName) (port p : ℕ) (m : PortManager)
    → lookup p (mark name port m).leases_by_port ≡ (
        if nat_eq port p
        then some name
        else freed_by (lookup name m.leases_by_name) p (lookup p m.leases_by_port))
mark_by_port name port p m =
    rw (lookup-insert, lookup-freed (lookup name m.leases_by_name) p m.leases_by_port) refl

module _ (name : NamespacedName) (port : ℕ) (m : PortManager) (v : IsConsistent m)
    (free : (lookup port m.leases_by_port ≡ none) ⊎ (lookup port m.leases_by_port ≡ some name))
    (n : NamespacedName) (p : ℕ) where
  mark_to_port :
      (if name == n then some port else lookup n m.leases_by_name) ≡ some p
      → (if nat_eq port p
          then some name
          else freed_by (lookup name m.leases_by_name) p (lookup p m.leases_by_port))
        ≡ some n
  mark_to_port h = elim (Option-cases (lookup name m.leases_by_name)) [
    | inl e ↦ rw e (ground (arith, same_name_iff name n, v.to_port n p))
    | inr (old, e) ↦ rw e (ground (arith, same_name_iff name n, v.to_port n p, v.to_port name old))
  ]

  mark_to_name :
      (if nat_eq port p
          then some name
          else freed_by (lookup name m.leases_by_name) p (lookup p m.leases_by_port))
        ≡ some n
      → (if name == n then some port else lookup n m.leases_by_name) ≡ some p
  mark_to_name h = elim (Option-cases (lookup name m.leases_by_name)) [
    | inl e ↦
        let h' = rw e at h in ground (arith, same_name_iff name n, v.to_name n p, v.to_name name p)
    | inr (old, e) ↦
        let h' = rw e at h in ground (arith, same_name_iff name n, v.to_name n p, v.to_name name p)
  ]

-- To mark a port that is free, or held by the same name, keeps the maps consistent.
pub mark-IsConsistent :
    (name : NamespacedName) (port : ℕ) (m : PortManager)
    → IsConsistent m
    → (lookup port m.leases_by_port ≡ none) ⊎ (lookup port m.leases_by_port ≡ some name)
    → IsConsistent (mark name port m)
mark-IsConsistent name port m v free = record {
  to_port = λ n p h.
      mark_by_port name port p m
      ∙ mark_to_port name port m v free n p (sym (mark_by_name name n port m) ∙ h);
  to_name = λ n p h.
      mark_by_name name n port m
      ∙ mark_to_name name port m v free n p (sym (mark_by_port name port p m) ∙ h);
}

abbrev dropped : NamespacedName → ℕ → PortManager → PortManager
dropped name port m = record {
  leases_by_port = delete port m.leases_by_port;
  leases_by_name = delete name m.leases_by_name;
}

dropped-IsConsistent :
    (name : NamespacedName) (port : ℕ) (m : PortManager)
    → IsConsistent m
    → lookup name m.leases_by_name ≡ some port
    → IsConsistent (dropped name port m)
dropped-IsConsistent name port m v e = record {
  to_port = λ n p h. ground (
    arith,
    same_name_iff name n,
    lookup-delete name n m.leases_by_name,
    lookup-delete port p m.leases_by_port,
    v.to_port n p,
    v.to_port name port,
  );
  to_name = λ n p h. ground (
    arith,
    same_name_iff name n,
    lookup-delete name n m.leases_by_name,
    lookup-delete port p m.leases_by_port,
    v.to_name n p,
    v.to_name name p,
  );
}

release_unheld :
    (name : NamespacedName) (m : PortManager)
    → lookup name m.leases_by_name ≡ none
    → release name m ≡ m
unfolding release
release_unheld name m e = rw (e, release) refl

release_held :
    (name : NamespacedName) (port : ℕ) (m : PortManager)
    → lookup name m.leases_by_name ≡ some port
    → release name m ≡ dropped name port m
unfolding release
release_held name port m e = rw (e, release) refl

-- A release keeps the maps consistent.
pub release-IsConsistent :
    (name : NamespacedName) (m : PortManager) → IsConsistent m → IsConsistent (release name m)
release-IsConsistent name m v = elim (Option-cases (lookup name m.leases_by_name)) [
  | inl e ↦ rw (release_unheld name m e) v
  | inr (port, e) ↦ rw (release_held name port m e) (dropped-IsConsistent name port m v e)
]

-- After a release the name holds no port, and the port that it held is free.
pub release_frees :
    (name : NamespacedName) (port : ℕ) (m : PortManager)
    → lookup name m.leases_by_name ≡ some port
    → (lookup name (release name m).leases_by_name ≡ none)
      × (lookup port (release name m).leases_by_port ≡ none)
release_frees name port m e = rw (release_held name port m e) (
  ground (arith, same_name_iff name name, lookup-delete name name m.leases_by_name),
  ground (arith, lookup-delete port port m.leases_by_port),
)
