-- ===== src/Ports/Draws.antt =====
-- Which port `getRandomFreePort` chooses.
use clusterlink.Common.{
  ℕ, zero, suc, ◌+◌, ◌-◌, ◌%◌, ◌^◌, ◌<◌, ◌≤◌, ◌≡◌, ◌≢◌, refl, ap, ◌∙◌, ◌⊎◌, inl, inr, none, some,
  arith, nat_eq, Bool-cases, ℕ_eq, Option-cases,
}
use clusterlink.Common.Maps.{Map, lookup}
use clusterlink.Crds.Names.{NamespacedName}
use clusterlink.Ports.{
  PortManager, start_port, end_port, port_count, max_random_tries, random_tries, next_port, scan,
  get_random_free_port,
}

module _ (taken : Map ℕ NamespacedName) where
  abbrev pub IsFree : ℕ → Type 0
  IsFree port = lookup port taken ≡ none

  abbrev pub IsTaken : ℕ → Type 0
  IsTaken port = lookup port taken ≢ none

  module _ (draws : ℕ → ℕ) (b : (i : ℕ) → draws i < port_count) (tries i : ℕ) where
    drawn_port : (start_port + draws i % 2 ^ 16) % 2 ^ 16 ≡ start_port + draws i
    drawn_port = let bound = b i in omega arith

    random_tries_hit :
        IsFree (start_port + draws i)
        → random_tries taken draws (suc tries) i ≡ some (start_port + draws i)
    unfolding random_tries
    random_tries_hit e = rw (drawn_port, e, random_tries) (ap some drawn_port)

    random_tries_miss :
        (holder : NamespacedName)
        → lookup (start_port + draws i) taken ≡ some holder
        → random_tries taken draws (suc tries) i ≡ random_tries taken draws tries (i + 1)
    unfolding random_tries
    random_tries_miss holder e = rw (drawn_port, e, random_tries) refl

  -- The next number of a range, or a later one.
  same_or_other : (k i : ℕ) → (k ≡ i) ⊎ (k ≢ i)
  same_or_other k i = elim (Bool-cases (nat_eq k i)) [
    | inl same ↦ inl (ground arith)
    | inr other ↦ inr (ground arith)
  ]

  -- The first of some ports is taken, and so are the others.
  first_and_others :
      (holder : NamespacedName) (port bound : ℕ)
      → lookup (suc port) taken ≡ some holder
      → ((x : ℕ) → suc port < x → x < bound → IsTaken x)
      → (x : ℕ) → port < x
      → x < bound
      → IsTaken x
  first_and_others holder port bound e all x l u = elim (same_or_other x (suc port)) [
    | inl same ↦ rw same (λ free. cc)
    | inr other ↦ all x (omega arith) u
  ]

  -- One of the drawn ports is free, and it is the result, or none is.
  tries_lem :
      (draws : ℕ → ℕ)
      → ((i : ℕ) → draws i < port_count)
      → (tries i : ℕ)
      → ((k : ℕ) × (i ≤ k)
          × (k < i + tries)
          × IsFree (start_port + draws k)
          × (random_tries taken draws tries i ≡ some (start_port + draws k)))
        ⊎ ((random_tries taken draws tries i ≡ none)
            × ((k : ℕ) → i ≤ k → k < i + tries → IsTaken (start_port + draws k)))
  unfolding random_tries
  tries_lem draws b zero i = inr (refl, λ k l u. omega arith)
  tries_lem draws b (suc tries) i = elim (Option-cases (lookup (start_port + draws i) taken)) [
    | inl e ↦ inl (i, omega arith, omega arith, e, random_tries_hit draws b tries i e)
    | inr (holder, e) ↦
        let step = random_tries_miss draws b tries i holder e in
        elim (tries_lem draws b tries (i + 1)) [
          | inl (k, l, u, free, q) ↦ inl (k, omega arith, omega arith, free, step ∙ q)
          | inr (q, all) ↦ inr (
            step ∙ q,
            λ k l u. elim (same_or_other k i) [
              | inl same ↦ rw same (λ free. cc)
              | inr other ↦ all k (omega arith) (omega arith)
            ],
          )
        ]
  ]

  module _ (rounds port : ℕ) (b : suc port < end_port) where
    next_port_lem : next_port port ≡ suc port
    next_port_lem = ground arith

    scan_hit : IsFree (suc port) → scan taken (suc rounds) port ≡ suc port
    unfolding scan
    scan_hit e = rw (next_port_lem, e, scan) next_port_lem

    scan_miss :
        (holder : NamespacedName)
        → lookup (suc port) taken ≡ some holder
        → scan taken (suc rounds) port ≡ scan taken rounds (suc port)
    unfolding scan
    scan_miss holder e = rw (next_port_lem, e, scan) (ap (scan taken rounds) next_port_lem)

  -- What a scan of `rounds` ports after `port` may return.
  abbrev pub Scanned : ℕ → ℕ → ℕ → Type 0
  Scanned rounds port q =
      ((port < q) × (q ≤ port + rounds) × IsFree q × ((x : ℕ) → port < x → x < q → IsTaken x))
      ⊎ ((q ≡ port + rounds) × ((x : ℕ) → port < x → x ≤ port + rounds → IsTaken x))

  -- The scan takes the first free port after `port`; where there is none it ends on the last one.
  scan_lem :
      (rounds port : ℕ) → port + rounds < end_port → Scanned rounds port (scan taken rounds port)
  unfolding scan
  scan_lem zero port b = inr (omega arith, λ x l u. omega arith)
  scan_lem (suc rounds) port b = elim (Option-cases (lookup (suc port) taken)) [
    | inl e ↦
        rw (scan_hit rounds port (omega arith) e)
          (inl (omega arith, omega arith, e, λ x l u. omega arith))
    | inr (holder, e) ↦
        rw (scan_miss rounds port (omega arith) holder e)
          (elim (scan_lem rounds (suc port) (omega arith)) [
            | inl (l, u, free, all) ↦
                inl (omega arith, omega arith, free, first_and_others holder port _ e all)
            | inr (q, all) ↦ inr (
              omega arith,
              λ x l u.
                  first_and_others holder port (suc (port + suc rounds)) e
                    (λ y a c. all y a (omega arith)) x l (omega arith),
            )
          ])
  ]

-- With draws in the range of `rand.Intn`: the chosen port is start_port plus one of the 40 draws and
-- is free; or all of them are taken, and it is the first free port from 1 on, below start_port if
-- there is one there; or the ports from 1 to port_count - 2 are taken too, and it is the last of these.
pub get_random_free_port_lem :
    (m : PortManager) (draws : ℕ → ℕ)
    → ((i : ℕ) → draws i < port_count)
    → let port = get_random_free_port m draws in
      ((k : ℕ) × (0 ≤ k)
        × (k < 0 + max_random_tries)
        × IsFree m.leases_by_port (start_port + draws k)
        × (port ≡ start_port + draws k))
      ⊎ (((k : ℕ)
            → 0 ≤ k
            → k < 0 + max_random_tries
            → IsTaken m.leases_by_port (start_port + draws k))
          × Scanned m.leases_by_port (port_count - 2) 0 port)
unfolding get_random_free_port
get_random_free_port_lem m draws b = elim (tries_lem m.leases_by_port draws b max_random_tries 0) [
  | inl (k, l, u, free, q) ↦ inl (k, l, u, free, rw (q, get_random_free_port) refl)
  | inr (q, all) ↦ inr (
    all,
    rw (q, get_random_free_port) (scan_lem m.leases_by_port (port_count - 2) 0 (omega arith)),
  )
]
