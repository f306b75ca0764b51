-- ===== src/Samples/Leasing.antt =====
-- Leases of two services.
use clusterlink.Common.{
  ℕ, ◌+◌, ◌-◌, ◌<◌, ◌≤◌, ◌≡◌, ◌≢◌, refl, ◌⊎◌, inl, some, [], ◌∷◌, err, arith, ℕ_eq,
}
use clusterlink.Common.Maps.{lookup, insert}
use clusterlink.Crds.Names.{NamespacedName, name_eq}
use clusterlink.Ports.{
  PortManager, conflicting_target_port, new_port_manager, start_port, port_count, max_random_tries,
  get_random_free_port, lease,
}
use clusterlink.Ports.Consistency.{IsConsistent, new-IsConsistent, mark-IsConsistent}
use clusterlink.Ports.Leases.{Leased, lease_specific}
use clusterlink.Ports.Draws.{get_random_free_port_lem, IsFree, IsTaken, Scanned}
use clusterlink.Samples.World.{object}

abbrev web : NamespacedName
web = object "web"

abbrev draws : ℕ → ℕ
draws i = 7

-- The service "web" holds port 8080.
abbrev held : PortManager
held = record { leases_by_port = (8080, web) ∷ []; leases_by_name = (web, 8080) ∷ [] }

held-IsConsistent : IsConsistent held
unfolding new_port_manager insert lookup
held-IsConsistent = mark-IsConsistent web 8080 new_port_manager new-IsConsistent (inl refl)

lease_specific_example :
    let out = lease draws (object "db") 8080 held in
    ((holder : NamespacedName) × (lookup 8080 held.leases_by_port ≡ some holder)
      × (holder ≢ object "db")
      × (out ≡ (held, err (conflicting_target_port 8080 holder))))
    ⊎ (((holder : NamespacedName)
          → lookup 8080 held.leases_by_port ≡ some holder
          → holder ≡ object "db")
        × Leased out (object "db") 8080
        × IsConsistent out.0)
lease_specific_example =
    lease_specific (object "db") 8080 held draws (omega arith) held-IsConsistent

get_random_free_port_lem_example :
    let port = get_random_free_port held draws in
    ((k : ℕ) × (0 ≤ k)
      × (k < 0 + max_random_tries)
      × IsFree held.leases_by_port (start_port + draws k)
      × (port ≡ start_port + draws k))
    ⊎ (((k : ℕ)
          → 0 ≤ k
          → k < 0 + max_random_tries
          → IsTaken held.leases_by_port (start_port + draws k))
        × Scanned held.leases_by_port (port_count - 2) 0 port)
get_random_free_port_lem_example = get_random_free_port_lem held draws (λ i. omega arith)
