-- ===== src/Balancer/Progress.antt =====
-- The invariant of one request's progress through its sources.
use clusterlink.Common.{
  ℕ, ◌+◌, ◌≤◌, ◌<◌, ◌≡◌, refl, ◌⊎◌, inl, inr, Option, none, some, [], arith, length, All, ℕ_eq,
}
use clusterlink.Common.Maps.{Map, IsDistinct, IsDistinct-insert, All-insert}
use clusterlink.Common.Pigeonhole.{Below, length-le}
use clusterlink.Crds.Names.{name_eq}
use clusterlink.Crds.Imports.{Import, lb_scheme_random, lb_scheme_round_robin, lb_scheme_static}
use clusterlink.Balancer.Select.{
  LoadBalancingResult, source_count, marked, get_scheme, new_load_balancing_result,
}
use clusterlink.Balancer.Random.{wrap}
use clusterlink.Balancer.Trails.{arc}

-- The schemes that `Select` handles; the empty string stands for the default.
abbrev pub IsKnown : Import → Type 0
IsKnown imp =
    (get_scheme imp ≡ lb_scheme_random)
    ⊎ (get_scheme imp ≡ lb_scheme_round_robin)
    ⊎ (get_scheme imp ≡ lb_scheme_static)

-- The indices that the next `Select` takes for tried: `failed`, and the current one.
abbrev pub tried : LoadBalancingResult → Map ℕ (Unit {0})
tried r = marked r.current_index r.failed

abbrev pub IsIndex : ℕ → Option ℕ → Type 0
IsIndex n none = ⊥
IsIndex n (some i) = i < n

-- How far the schemes that walk along the sources have come.
abbrev pub Walk : LoadBalancingResult → Type 0
Walk r =
    (start : ℕ) × (k : ℕ) × (start < source_count r)
    × (k < source_count r)
    × (r.failed ≡ arc start k (source_count r))
    × (r.current_index ≡ some (wrap (source_count r) (start + k)))
    × ((get_scheme r.imp ≡ lb_scheme_static) → start ≡ 0)

abbrev pub Trail : LoadBalancingResult → Type 0
Trail r =
    (length (tried r) ≡ source_count r)
    ⊎ (get_scheme r.imp ≡ lb_scheme_random)
    ⊎ ((r.current_index ≡ none) × (r.failed ≡ []))
    ⊎ Walk r

pub record IsProper (r : LoadBalancingResult) : Type 0 where
  pub distinct : IsDistinct r.failed
  pub below : Below (source_count r) r.failed
  pub current_in :
      ((r.current_index ≡ none) × (r.failed ≡ [])) ⊎ IsIndex (source_count r) r.current_index
  pub delayed_in : All (IsIndex (source_count r)) r.delayed
  pub trail : Trail r

pub new-IsProper : (imp : Import) → IsProper (new_load_balancing_result imp)
unfolding new_load_balancing_result
new-IsProper imp = record {
  distinct = tt;
  below = tt;
  current_in = inl (refl, refl);
  delayed_in = tt;
  trail = inr (inr (inl (refl, refl)));
}

marked-IsDistinct : (c : Option ℕ) (m : Map ℕ (Unit {0})) → IsDistinct m → IsDistinct (marked c m)
marked-IsDistinct none m d = d
marked-IsDistinct (some i) m d = IsDistinct-insert i tt m d

marked-Below :
    (n : ℕ) (c : Option ℕ) (m : Map ℕ (Unit {0}))
    → ((c ≡ none) × (m ≡ [])) ⊎ IsIndex n c
    → Below n m
    → Below n (marked c m)
marked-Below n none m h b = b
marked-Below n (some i) m (inl h) b = absurd (grind (arith, h.0))
marked-Below n (some i) m (inr h) b = All-insert _ i tt m h b

module _ (r : LoadBalancingResult) (v : IsProper r) where
  pub tried-IsDistinct : IsDistinct (tried r)
  tried-IsDistinct = marked-IsDistinct r.current_index r.failed v.distinct

  pub tried-Below : Below (source_count r) (tried r)
  tried-Below = marked-Below (source_count r) r.current_index r.failed v.current_in v.below

  pub length-tried-le : length (tried r) ≤ source_count r
  length-tried-le = length-le (source_count r) (tried r) tried-IsDistinct tried-Below

-- The progress after `Select` chose the source at `i`.
abbrev pub next : LoadBalancingResult → ℕ → LoadBalancingResult
next r i = record r { failed = tried r; current_index = some i }
