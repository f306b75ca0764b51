-- ===== src/Samples/Balancing.antt =====
-- A request to an import with two sources, before the first attempt and after the second.
use clusterlink.Common.{
  ℕ, ◌+◌, ◌≤◌, ◌<◌, ◌≡◌, refl, String, inl, inr, Option, none, some, List, [], ◌∷◌, arith, length,
  ℕ_eq,
}
use clusterlink.Common.Maps.{lookup, insert}
use clusterlink.Crds.Imports.{Import, ImportSource}
use clusterlink.Balancer.Select.{
  LoadBalancingResult, source_count, select, get_scheme, new_load_balancer,
  new_load_balancing_result,
}
use clusterlink.Balancer.Progress.{IsKnown, IsProper, new-IsProper, next, tried}
use clusterlink.Balancer.Attempts.{select_new, left}
use clusterlink.Samples.World.{object}

abbrev source : String → ImportSource
source peer = record { peer = peer; export_name = "api"; export_namespace = "default" }

abbrev pair : Import
pair = record {
  object = object "api";
  labels = [];
  spec = record {
    port = 80;
    target_port = 0;
    sources = source "west" ∷ source "east" ∷ [];
    lb_scheme = "random";
  };
  conditions = [];
}

random-IsKnown : IsKnown pair
unfolding get_scheme
random-IsKnown = inl refl

abbrev fresh : LoadBalancingResult
fresh = new_load_balancing_result pair

-- Both sources were tried, and the first of them was delayed.
abbrev tried_both : List (Option ℕ) → LoadBalancingResult
tried_both delayed = record {
  imp = pair;
  current_index = some 1;
  failed = (0, tt) ∷ [];
  delayed = delayed;
}

both_tried : (delayed : List (Option ℕ)) → length (tried (tried_both delayed)) ≡ 2
unfolding insert
both_tried delayed = refl

one_delayed-IsProper : IsProper (tried_both (some 0 ∷ []))
unfolding lookup
one_delayed-IsProper = record {
  distinct = (refl, tt);
  below = (omega arith, tt);
  current_in = inr (omega arith);
  delayed_in = (omega arith, tt);
  trail = inl (both_tried (some 0 ∷ []));
}

none_delayed-IsProper : IsProper (tried_both [])
unfolding lookup
none_delayed-IsProper = record {
  distinct = (refl, tt);
  below = (omega arith, tt);
  current_in = inr (omega arith);
  delayed_in = tt;
  trail = inl (both_tried []);
}

select_new_example :
    (i : ℕ) × ((select 1 new_load_balancer fresh).1 ≡ next fresh i)
    × ((select 1 new_load_balancer fresh).2 ≡ none)
    × (i < source_count fresh)
    × (lookup i (tried fresh) ≡ none)
    × IsProper (next fresh i)
    × (left (next fresh i) + 2 ≤ left fresh)
unfolding new_load_balancing_result
select_new_example =
    select_new 1 new_load_balancer fresh (new-IsProper pair) random-IsKnown (omega arith)
      (omega arith)

abbrev again : LoadBalancingResult
again = record (tried_both []) { failed = tried (tried_both (some 0 ∷ [])); current_index = some 0 }
