-- ===== src/Ports/Leases.antt =====
-- What `Lease` returns and what it leaves in the maps.
use clusterlink.Common.{
  ℕ, ◌≡◌, ◌≢◌, refl, ap, ◌∙◌, ◌⊎◌, inl, inr, true, false, not, none, some, Result, ok, err, arith,
  nat_eq, nat_eq_iff, if◌then◌else◌, ℕ_eq, Option-cases, Bool-cases, length,
}
use clusterlink.Common.Maps.{lookup, lookup-insert_self}
use clusterlink.Crds.Names.{NamespacedName, same_name, same_name_iff, name_eq}
use clusterlink.Ports.{
  PortManager, PortError, conflicting_target_port, all_ports_taken, mark, port_of, port_count,
  get_random_free_port, lease_with_random_port, lease_with_specific_port, lease,
}
use clusterlink.Ports.Consistency.{IsConsistent, mark-IsConsistent}

abbrev pub Leased : PortManager × Result PortError ℕ → NamespacedName → ℕ → Type 0
Leased out name port =
    (out.1 ≡ ok port)
    × (lookup name out.0.leases_by_name ≡ some port)
    × (lookup port out.0.leases_by_port ≡ some name)

mark-Leased :
    (name : NamespacedName) (port : ℕ) (m : PortManager)
    → Leased (mark name port m, ok port) name port
mark-Leased name port m = (refl, lookup-insert_self name port _, lookup-insert_self port name _)

module _ (name holder : NamespacedName) (port : ℕ) (m : PortManager) (draws : ℕ → ℕ)
    (nz : port ≢ 0) where
  lease_given : lease draws name port m ≡ lease_with_specific_port name port m
  unfolding lease
  lease_given = let given : nat_eq port 0 ≡ false = ground arith in rw given refl

  specific_free :
      lookup port m.leases_by_port ≡ none
      → lease_with_specific_port name port m ≡ (mark name port m, ok port)
  unfolding lease_with_specific_port
  specific_free e = rw (e, lease_with_specific_port) refl

  lease_free :
      lookup port m.leases_by_port ≡ none → lease draws name port m ≡ (mark name port m, ok port)
  lease_free e = lease_given ∙ specific_free e

  module _ (e : lookup port m.leases_by_port ≡ some holder) where
    specific_held : lease_with_specific_port name port m ≡ (
        if not (same_name holder name)
        then (m, err (conflicting_target_port port holder))
        else (mark name port m, ok port))
    unfolding lease_with_specific_port
    specific_held = rw (e, lease_with_specific_port) refl

    lease_own : same_name holder name ≡ true → lease draws name port m ≡ (mark name port m, ok port)
    lease_own same = lease_given ∙ specific_held ∙ rw same refl

    lease_taken :
        same_name holder name ≡ false
        → lease draws name port m ≡ (m, err (conflicting_target_port port holder))
    lease_taken other = lease_given ∙ specific_held ∙ rw other refl

-- A specific port is refused where another name holds it, and then nothing changes; it is leased to the
-- name exactly where nobody else holds it, and a consistent state stays consistent.
pub lease_specific :
    (name : NamespacedName) (port : ℕ) (m : PortManager) (draws : ℕ → ℕ)
    → port ≢ 0
    → IsConsistent m
    → let out = lease draws name port m in
      ((holder : NamespacedName) × (lookup port m.leases_by_port ≡ some holder)
        × (holder ≢ name)
        × (out ≡ (m, err (conflicting_target_port port holder))))
      ⊎ (((holder : NamespacedName) → lookup port m.leases_by_port ≡ some holder → holder ≡ name)
          × Leased out name port
          × IsConsistent out.0)
lease_specific name port m draws nz v = elim (Option-cases (lookup port m.leases_by_port)) [
  | inl e ↦
      let q = lease_free name name port m draws nz e in
      inr (
        (λ holder h. absurd (cc (e, h))),
        rw q (mark-Leased name port m),
        rw q (mark-IsConsistent name port m v (inl e)),
      )
  | inr (holder, e) ↦ elim (Bool-cases (same_name holder name)) [
    | inl same ↦
        let q = lease_own name holder port m draws nz e same in
        let own : lookup port m.leases_by_port ≡ some name =
          e ∙ ap some ((same_name_iff holder name).0 same) in
        inr (
          (λ h p. cc (own, p)),
          rw q (mark-Leased name port m),
          rw q (mark-IsConsistent name port m v (inr own)),
        )
    | inr other ↦ inl (
      holder,
      e,
      (λ q. cc ((same_name_iff holder name).1 q)),
      lease_taken name holder port m draws nz e other,
    )
  ]
]

-- Without a specific port: an error where as many ports as the range has are leased, even if the
-- name holds one of them; else the port that the name holds, if it is not 0; else the port of
-- `getRandomFreePort` is leased to the name.
pub lease_random :
    (name : NamespacedName) (m : PortManager) (draws : ℕ → ℕ)
    → let out = lease draws name 0 m in
      let fresh = get_random_free_port m draws in
      ((length m.leases_by_port ≡ port_count) × (out ≡ (m, err all_ports_taken)))
      ⊎ ((length m.leases_by_port ≢ port_count)
          × (port_of name m ≢ 0)
          × (out ≡ (m, ok (port_of name m))))
      ⊎ ((length m.leases_by_port ≢ port_count) × (port_of name m ≡ 0) × Leased out name fresh)
unfolding lease lease_with_random_port
lease_random name m draws = elim (Bool-cases (nat_eq (length m.leases_by_port) port_count)) [
  | inl full ↦ inl ((nat_eq_iff _ _).0 full, rw full refl)
  | inr room ↦ elim (Bool-cases (nat_eq (port_of name m) 0)) [
    | inl zero_port ↦
        inr (inr (ground arith, ground arith, rw (room, zero_port) (mark-Leased name _ m)))
    | inr held ↦ inr (inl (ground arith, ground arith, rw (room, held) refl))
  ]
]

-- Where the port of `getRandomFreePort` is free, a lease without a specific port keeps a consistent
-- state consistent.
pub lease_random-IsConsistent :
    (name : NamespacedName) (m : PortManager) (draws : ℕ → ℕ)
    → IsConsistent m
    → lookup (get_random_free_port m draws) m.leases_by_port ≡ none
    → IsConsistent (lease draws name 0 m).0
unfolding lease lease_with_random_port
lease_random-IsConsistent name m draws v free =
    elim (Bool-cases (nat_eq (length m.leases_by_port) port_count)) [
      | inl full ↦ rw full v
      | inr room ↦ elim (Bool-cases (nat_eq (port_of name m) 0)) [
        | inl zero_port ↦
            rw (room, zero_port)
              (mark-IsConsistent name (get_random_free_port m draws) m v (inl free))
        | inr held ↦ rw (room, held) v
      ]
    ]
