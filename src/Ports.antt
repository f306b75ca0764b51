-- ===== src/Ports.antt =====
-- pkg/controlplane/control/port.go: the leases of listening ports. `Lease` and `Release` hold the
-- manager's lock, so each is one step. A port is a uint16.
pub mod Consistency
pub mod Leases
pub mod Draws
use clusterlink.Common.{
  ℕ, zero, suc, ◌+◌, ◌-◌, ◌%◌, ◌^◌, Bool, true, false, not, ◌&&◌, Option, none, some, List, [], ◌∷◌,
  Result, ok, err, nat_eq, length, if◌then◌else◌, ℕ_eq, ◌==◌,
}
use clusterlink.Common.Maps.{Map, lookup, insert, delete}
use clusterlink.Crds.Names.{NamespacedName, name_eq}

pub record PortManager : Type 0 where
  pub leases_by_port : Map ℕ NamespacedName
  pub leases_by_name : Map NamespacedName ℕ

-- `conflicting_target_port` is `conflictingTargetPortError`.
pub data PortError : Type 0 where
  all_ports_taken : PortError
  conflicting_target_port : ℕ → NamespacedName → PortError

abbrev pub start_port : ℕ
start_port = 1024

abbrev pub end_port : ℕ
end_port = 49152

abbrev pub port_count : ℕ
port_count = end_port - start_port

abbrev pub max_random_tries : ℕ
max_random_tries = 40

unfoldable pub new_port_manager : PortManager
new_port_manager = record { leases_by_port = []; leases_by_name = [] }

-- The first loop of `getRandomFreePort`; `draws i` is what `rand.Intn` returns in round `i`.
unfoldable pub random_tries : Map ℕ NamespacedName → (ℕ → ℕ) → ℕ → ℕ → Option ℕ
random_tries taken draws zero i = none
random_tries taken draws (suc tries) i =
    let port : ℕ = (start_port + draws i % 2 ^ 16) % 2 ^ 16 in
    let rest = random_tries taken draws tries (i + 1) in
    elim (lookup port taken) [ none ↦ some port | some _ ↦ rest ]

-- `port++`, and back to the start at the end of the range.
abbrev pub next_port : ℕ → ℕ
next_port port = let up : ℕ = (port + 1) % 2 ^ 16 in if nat_eq up end_port then start_port else up

-- The second loop, with its rounds left and the outer variable `port`.
unfoldable pub scan : Map ℕ NamespacedName → ℕ → ℕ → ℕ
scan taken zero port = port
scan taken (suc rounds) port =
    let up = next_port port in
    let rest = scan taken rounds up in elim (lookup up taken) [ none ↦ up | some _ ↦ rest ]

-- The `port` of the first loop is a variable of its own, so the scan starts from the zero value.
unfoldable pub get_random_free_port : PortManager → (ℕ → ℕ) → ℕ
get_random_free_port m draws = elim (random_tries m.leases_by_port draws max_random_tries 0) [
  | some port ↦ port
  | none ↦ scan m.leases_by_port (port_count - 2) 0
]

-- The end of both ways to lease: the previous port is freed, and the new one is marked.
abbrev pub mark : NamespacedName → ℕ → PortManager → PortManager
mark name port m = record {
  leases_by_port = insert port name (elim (lookup name m.leases_by_name) [
    | some old ↦ delete old m.leases_by_port
    | none ↦ m.leases_by_port
  ]);
  leases_by_name = insert name port m.leases_by_name;
}

-- `m.leasesByName[name]`, with the zero value for a missing key.
abbrev pub port_of : NamespacedName → PortManager → ℕ
port_of name m = elim (lookup name m.leases_by_name) [ none ↦ 0 | some port ↦ port ]

unfoldable pub lease_with_random_port :
    (ℕ → ℕ) → NamespacedName → PortManager → PortManager × Result PortError ℕ
lease_with_random_port draws name m =
    if nat_eq (length m.leases_by_port) port_count
    then (m, err all_ports_taken)
    else if not (nat_eq (port_of name m) 0)
    then (m, ok (port_of name m))
    else (let port = get_random_free_port m draws in (mark name port m, ok port))

unfoldable pub lease_with_specific_port :
    NamespacedName → ℕ → PortManager → PortManager × Result PortError ℕ
lease_with_specific_port name port m = elim (lookup port m.leases_by_port) [
  | some holder ↦
      if not (holder == name)
      then (m, err (conflicting_target_port port holder))
      else (mark name port m, ok port)
  | none ↦ (mark name port m, ok port)
]

unfoldable pub lease : (ℕ → ℕ) → NamespacedName → ℕ → PortManager → PortManager × Result PortError ℕ
lease draws name port m =
    if nat_eq port 0
    then lease_with_random_port draws name m
    else lease_with_specific_port name port m

unfoldable pub release : NamespacedName → PortManager → PortManager
release name m = elim (lookup name m.leases_by_name) [
  | some port ↦ record {
    leases_by_port = delete port m.leases_by_port;
    leases_by_name = delete name m.leases_by_name;
  }
  | none ↦ m
]
