-- ===== src/Balancer/Schemes.antt =====
-- Each scheme, asked for a source while there are some left, picks one that was not tried.
use clusterlink.Common.{
  ℕ, suc, ◌+◌, ◌%◌, ◌^◌, ◌<◌, ◌≡◌, ◌≢◌, refl, sym, ◌∙◌, ap, ap₂, inl, inr, none, some, [], String,
  str_eq, eq_iff, false, arith, nat_eq, length, if◌then◌else◌, ℕ_eq,
}
use clusterlink.Common.Maps.{Map, lookup}
use clusterlink.Crds.Names.{name_eq}
use clusterlink.Crds.Imports.{lb_scheme_random, lb_scheme_round_robin, lb_scheme_static}
use clusterlink.Balancer.Select.{
  LoadBalancer, LoadBalancingResult, source_count, counter_of, marked, random_loop, select_random,
  select_round_robin, select_static, get_scheme, mark_failed, select_by_scheme,
}
use clusterlink.Balancer.Random.{wrap, random_loop_finds}
use clusterlink.Balancer.Trails.{arc, length-arc, lookup-arc, insert-arc, wrap_lt, wrap-suc}
use clusterlink.Balancer.Progress.{IsKnown, tried, Walk, Trail, IsProper, tried-IsDistinct, next}

-- What a selection of a new source gives: an index in range that was not tried.
abbrev pub PicksNew : LoadBalancingResult → LoadBalancingResult → Type 0
PicksNew r r' =
    (i : ℕ) × (r' ≡ next r i)
    × (i < source_count r)
    × (lookup i (tried r) ≡ none)
    × Trail (next r i)

ne_of_str_eq : (s t : String) → str_eq s t ≡ false → s ≢ t
ne_of_str_eq s t h e = cc ((eq_iff s t).1 e)

random≢round_robin : lb_scheme_random ≢ lb_scheme_round_robin
random≢round_robin = ne_of_str_eq _ _ refl

random≢static : lb_scheme_random ≢ lb_scheme_static
random≢static = ne_of_str_eq _ _ refl

round_robin≢static : lb_scheme_round_robin ≢ lb_scheme_static
round_robin≢static = ne_of_str_eq _ _ refl

walk-tried :
    (r : LoadBalancingResult) (start k : ℕ)
    → start < source_count r
    → k < source_count r
    → r.failed ≡ arc start k (source_count r)
    → r.current_index ≡ some (wrap (source_count r) (start + k))
    → tried r ≡ arc start (suc k) (source_count r)
walk-tried r start k s l f c = ap₂ marked c f ∙ insert-arc start (source_count r) s k l

-- A step along the sources.
strides_pick :
    (r : LoadBalancingResult)
    → Walk r
    → length (tried r) < source_count r
    → (k start : ℕ) × (r.current_index ≡ some (wrap (source_count r) (start + k)))
      × (suc k < source_count r)
      × (start < source_count r)
      × ((get_scheme r.imp ≡ lb_scheme_static) → start ≡ 0)
      × (lookup (wrap (source_count r) (start + suc k)) (tried r) ≡ none)
      × Trail (next r (wrap (source_count r) (start + suc k)))
strides_pick r (start, k, s, l, f, c, st) room =
    let n = source_count r in
    let t : tried r ≡ arc start (suc k) n = walk-tried r start k s l f c in
    let more : suc k < n =
      omega (arith, ap (λ (m : Map ℕ (Unit {0})). length m) t, length-arc start n s (suc k)) in
    (
      k,
      start,
      c,
      more,
      s,
      st,
      rw t (lookup-arc start n s (suc k) (suc k) (omega arith) more),
      inr (inr (inr (start, suc k, s, more, t, refl, st))),
    )

module _ (draw : ℕ) (lb : LoadBalancer) (r : LoadBalancingResult) where
  by_random :
      get_scheme r.imp ≡ lb_scheme_random
      → (select_by_scheme draw lb (mark_failed r)).1 ≡ select_random draw (mark_failed r)
  unfolding select_by_scheme mark_failed
  by_random e = rw e

  by_round_robin :
      get_scheme r.imp ≡ lb_scheme_round_robin
      → (select_by_scheme draw lb (mark_failed r)).1 ≡ (select_round_robin lb (mark_failed r)).1
  unfolding select_by_scheme mark_failed
  by_round_robin e = rw e

  by_static :
      get_scheme r.imp ≡ lb_scheme_static
      → (select_by_scheme draw lb (mark_failed r)).1 ≡ select_static (mark_failed r)
  unfolding select_by_scheme mark_failed
  by_static e = rw e

  random_next :
      (i : ℕ)
      → random_loop (tried r) (source_count r) (source_count r) draw ≡ some i
      → select_random draw (mark_failed r) ≡ next r i
  unfolding select_random mark_failed
  random_next i e = rw (e, select_random)

  round_robin_first :
      r.current_index ≡ none
      → (select_round_robin lb (mark_failed r)).1
        ≡ next r ((counter_of r.imp.object lb + 1) % 2 ^ 32 % source_count r)
  unfolding select_round_robin mark_failed
  round_robin_first c = ground arith

  round_robin_next :
      (i : ℕ)
      → r.current_index ≡ some i
      → (select_round_robin lb (mark_failed r)).1
        ≡ next r (if nat_eq (i + 1) (source_count r) then 0 else i + 1)
  unfolding select_round_robin mark_failed
  round_robin_next i c = ground arith

  static_first : r.current_index ≡ none → select_static (mark_failed r) ≡ next r 0
  unfolding select_static mark_failed
  static_first c = ground arith

  static_next : (i : ℕ) → r.current_index ≡ some i → select_static (mark_failed r) ≡ next r (i + 1)
  unfolding select_static mark_failed
  static_next i c = ground arith

-- The first step of a walk.
first_step :
    (r : LoadBalancingResult) (start : ℕ)
    → r.current_index ≡ none
    → r.failed ≡ []
    → start < source_count r
    → ((get_scheme r.imp ≡ lb_scheme_static) → start ≡ 0)
    → (lookup start (tried r) ≡ none) × Trail (next r start)
first_step r start c f s st =
    let t : tried r ≡ [] = ap₂ marked c f in
    let here : start ≡ wrap (source_count r) (start + 0) = ground arith in
    (rw t (unfold lookup in refl), inr (inr (inr (start, 0, s, omega arith, t, ap some here, st))))

module _ (draw : ℕ) (lb : LoadBalancer) (r : LoadBalancingResult) (v : IsProper r)
    (draw_in : draw < source_count r) (room : length (tried r) < source_count r) where
  random_picks :
      get_scheme r.imp ≡ lb_scheme_random → PicksNew r (select_by_scheme draw lb (mark_failed r)).1
  random_picks e =
      let (i, found, lt, out) =
        random_loop_finds (tried r) (source_count r) draw (tried-IsDistinct r v) draw_in room in
      (i, by_random draw lb r e ∙ random_next draw lb r i found, lt, out, inr (inl e))

  round_robin_picks :
      get_scheme r.imp ≡ lb_scheme_round_robin
      → PicksNew r (select_by_scheme draw lb (mark_failed r)).1
  round_robin_picks e = elim v.trail [
    | inl full ↦ absurd (omega arith)
    | inr (inl e') ↦ absurd (random≢round_robin (sym e' ∙ e))
    | inr (inr (inl (c, f))) ↦
        let lt : (counter_of r.imp.object lb + 1) % 2 ^ 32 % source_count r < source_count r =
          omega arith in
        let (out, t) = first_step r _ c f lt (λ e'. absurd (round_robin≢static (sym e ∙ e'))) in
        (_, by_round_robin draw lb r e ∙ round_robin_first draw lb r c, lt, out, t)
    | inr (inr (inr w)) ↦
        let (k, start, c, more, s, st, out, t) = strides_pick r w room in
        (
          wrap (source_count r) (start + suc k),
          by_round_robin draw lb r e
              ∙ round_robin_next draw lb r _ c
              ∙ ap (next r) (wrap-suc start (source_count r) s k more),
          wrap_lt start (source_count r) s (suc k) more,
          out,
          t,
        )
  ]

  static_picks :
      get_scheme r.imp ≡ lb_scheme_static → PicksNew r (select_by_scheme draw lb (mark_failed r)).1
  static_picks e = elim v.trail [
    | inl full ↦ absurd (omega arith)
    | inr (inl e') ↦ absurd (random≢static (sym e' ∙ e))
    | inr (inr (inl (c, f))) ↦
        let lt : 0 < source_count r = omega arith in
        let (out, t) = first_step r 0 c f lt (λ _. refl) in
        (0, by_static draw lb r e ∙ static_first draw lb r c, lt, out, t)
    | inr (inr (inr w)) ↦
        let (k, start, c, more, s, st, out, t) = strides_pick r w room in
        let z : start ≡ 0 = st e in
        let straight : wrap (source_count r) (start + k) + 1
            ≡ wrap (source_count r) (start + suc k) =
          ground arith in
        (
          wrap (source_count r) (start + suc k),
          by_static draw lb r e ∙ static_next draw lb r _ c ∙ ap (next r) straight,
          wrap_lt start (source_count r) s (suc k) more,
          out,
          t,
        )
  ]

  pub scheme_picks : IsKnown r.imp → PicksNew r (select_by_scheme draw lb (mark_failed r)).1
  scheme_picks (inl e) = random_picks e
  scheme_picks (inr (inl e)) = round_robin_picks e
  scheme_picks (inr (inr e)) = static_picks e
