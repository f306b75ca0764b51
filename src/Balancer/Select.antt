-- ===== src/Balancer/Select.antt =====
-- The load balancer's state, the progress of one request, and `Select`.
use clusterlink.Common.{
  ℕ, zero, suc, ◌+◌, ◌%◌, ◌^◌, String, Bool, Option, none, some, List, [], ◌∷◌, ◌++◌, str_eq,
  nat_eq, length, get_elem?, if◌then◌else◌, ℕ_eq,
}
use clusterlink.Common.Maps.{Map, lookup, insert}
use clusterlink.Crds.Names.{NamespacedName, name_eq}
use clusterlink.Crds.Imports.{
  Import, ImportSource, lb_scheme_random, lb_scheme_round_robin, lb_scheme_static,
  lb_scheme_default,
}

-- The atomic counter of each import, a uint32.
pub record LoadBalancer : Type 0 where
  pub states : Map NamespacedName ℕ

-- An index is `none` for -1, its value before the first selection. The keys of `failed` are the
-- indices that were tried.
pub record LoadBalancingResult : Type 0 where
  pub imp : Import
  pub current_index : Option ℕ
  pub failed : Map ℕ (Unit {0})
  pub delayed : List (Option ℕ)

pub data SelectError : Type 0 where
  tried_out_all : ℕ → SelectError

abbrev pub source_count : LoadBalancingResult → ℕ
source_count r = length r.imp.sources

unfoldable pub get : LoadBalancingResult → Option ImportSource
get r = elim r.current_index [ none ↦ none | some i ↦ get_elem? r.imp.sources i ]

unfoldable pub is_delayed : LoadBalancingResult → Bool
is_delayed r = nat_eq (length r.imp.sources) (length r.failed)

unfoldable pub delay : LoadBalancingResult → LoadBalancingResult
delay r = record r { delayed = r.delayed ++ r.current_index ∷ [] }

unfoldable pub new_load_balancing_result : Import → LoadBalancingResult
new_load_balancing_result imp = record {
  imp = imp;
  current_index = none;
  failed = [];
  delayed = [];
}

unfoldable pub new_load_balancer : LoadBalancer
new_load_balancer = record { states = [] }

-- The loop of `selectRandom` with its rounds left; `none` where the loop runs out.
unfoldable pub random_loop : Map ℕ (Unit {0}) → ℕ → ℕ → ℕ → Option ℕ
random_loop failed count zero index = none
random_loop failed count (suc rounds) index =
    let next = index + 1 in
    let rest = random_loop failed count rounds (if nat_eq next count then 0 else next) in
    elim (lookup index failed) [ none ↦ some index | some _ ↦ rest ]

-- `draw` is what `rand.Intn` returned.
unfoldable pub select_random : ℕ → LoadBalancingResult → LoadBalancingResult
select_random draw r = elim (random_loop r.failed (source_count r) (source_count r) draw) [
  | none ↦ r
  | some index ↦ record r { current_index = some index }
]

abbrev pub counter_of : NamespacedName → LoadBalancer → ℕ
counter_of name lb = elim (lookup name lb.states) [ none ↦ 0 | some c ↦ c ]

unfoldable pub select_round_robin :
    LoadBalancer → LoadBalancingResult → LoadBalancer × LoadBalancingResult
select_round_robin lb r =
    let counter = (counter_of r.imp.object lb + 1) % 2 ^ 32 in
    let lb' : LoadBalancer = record { states = insert r.imp.object counter lb.states } in
    elim r.current_index [
      | some i ↦ (
        lb',
        record r { current_index = some (if nat_eq (i + 1) (source_count r) then 0 else i + 1) },
      )
      | none ↦ (lb', record r { current_index = some (counter % source_count r) })
    ]

unfoldable pub select_static : LoadBalancingResult → LoadBalancingResult
select_static r = record r {
  current_index = elim r.current_index [ none ↦ some 0 | some i ↦ some (i + 1) ];
}

unfoldable pub get_scheme : Import → String
get_scheme imp = if str_eq imp.lb_scheme "" then lb_scheme_default else imp.lb_scheme

abbrev pub marked : Option ℕ → Map ℕ (Unit {0}) → Map ℕ (Unit {0})
marked none failed = failed
marked (some i) failed = insert i tt failed

-- `result.failed[result.currentIndex] = nil`, after the first selection.
unfoldable pub mark_failed : LoadBalancingResult → LoadBalancingResult
mark_failed r = record r { failed = marked r.current_index r.failed }

unfoldable pub select_by_scheme :
    ℕ → LoadBalancer → LoadBalancingResult → LoadBalancer × LoadBalancingResult
select_by_scheme draw lb r =
    if str_eq (get_scheme r.imp) lb_scheme_random
    then (lb, select_random draw r)
    else if str_eq (get_scheme r.imp) lb_scheme_round_robin
    then select_round_robin lb r
    else if str_eq (get_scheme r.imp) lb_scheme_static
    then (lb, select_static r)
    else (lb, r)

unfoldable pub select_delayed :
    LoadBalancer → LoadBalancingResult → LoadBalancer × LoadBalancingResult × Option SelectError
select_delayed lb r = elim r.delayed [
  | [] ↦ (lb, r, some (tried_out_all (source_count r)))
  | i ∷ rest ↦ (lb, record r { current_index = i; delayed = rest }, none)
]

unfoldable pub select :
    ℕ → LoadBalancer → LoadBalancingResult → LoadBalancer × LoadBalancingResult × Option SelectError
select draw lb r =
    let marked = mark_failed r in
    if nat_eq (length marked.failed) (source_count marked)
    then select_delayed lb marked
    else (let (lb', r') = select_by_scheme draw lb marked in (lb', r', none))
