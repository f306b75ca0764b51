-- ===== src/Authz/Egress/Loop.antt =====
-- An induction rule for the loop of `authorizeEgress`: with the fuel that is given it ends by a
-- response, by an error of an attempt, or when every source was tried and none is delayed.
use clusterlink.Common.{
  ℕ, zero, suc, ◌+◌, ◌≤◌, ◌<◌, ◌≡◌, refl, sym, ◌∙◌, ap, subst, ◌⊎◌, inl, inr, String, Bool, true,
  false, Option, none, some, List, [], ◌∷◌, Result, err, arith, length, ℕ_eq,
}
use clusterlink.Common.Maps.{lookup}
use clusterlink.Crds.Names.{NamespacedName}
use clusterlink.Crds.Policies.{AsSelector}
use clusterlink.Crds.Imports.{Import}
use clusterlink.Balancer.Select.{
  LoadBalancer, LoadBalancingResult, tried_out_all, source_count, is_delayed, delay, select,
}
use clusterlink.Balancer.Progress.{IsKnown, IsIndex, tried, IsProper, length-tried-le, next}
use clusterlink.Balancer.Attempts.{left, select_new, select_retry, select_exhausted, delay_lem}
use clusterlink.Authz.Egress.{
  World, Call, IsConditionTrue, Outcome, again, done, EgressError, EgressResponse, cannot_select,
  attempt, egress_loop,
}

-- What `Select` chose: a new source, or the first of the delayed ones when all were tried.
abbrev pub IsNew : LoadBalancingResult → LoadBalancingResult → Type 0
IsNew r r' = (i : ℕ) × (r' ≡ next r i) × (i < source_count r) × (lookup i (tried r) ≡ none)

abbrev pub IsRetry : LoadBalancingResult → LoadBalancingResult → Type 0
IsRetry r r' =
    (o : Option ℕ) × (rest : List (Option ℕ)) × (r'
      ≡ record r { failed = tried r; current_index = o; delayed = rest })
    × (length (tried r) ≡ source_count r)
    × (r.delayed ≡ o ∷ rest)
    × IsIndex (source_count r) o

abbrev pub IsExhausted : LoadBalancingResult → Type 0
IsExhausted r = (length (tried r) ≡ source_count r) × (r.delayed ≡ [])

abbrev SelectCases : ℕ → LoadBalancer → LoadBalancingResult → Type 0
SelectCases draw lb r =
    ((r' : LoadBalancingResult) × ((select draw lb r).1 ≡ r')
      × ((select draw lb r).2 ≡ none)
      × IsProper r'
      × IsIndex (source_count r') r'.current_index
      × (r'.imp ≡ r.imp)
      × (IsNew r r' × (left r' + 2 ≤ left r) ⊎ IsRetry r r' × (left r' + 1 ≤ left r)))
    ⊎ ((select draw lb r).2 ≡ some (tried_out_all (source_count r))) × IsExhausted r

select_cases :
    (draw : ℕ) (lb : LoadBalancer) (r : LoadBalancingResult)
    → IsProper r
    → IsKnown r.imp
    → (0 < source_count r → draw < source_count r)
    → SelectCases draw lb r
select_cases draw lb r v known draws = elim room [
  | inl less ↦
      let (i, e, f, lt, out, v', m) = select_new draw lb r v known (draws (omega arith)) less in
      inl (next r i, e, f, v', lt, refl, inl ((i, refl, lt, out), m))
  | inr full ↦ by_delayed r.delayed refl full
]
  where
    room : (length (tried r) < source_count r) ⊎ (length (tried r) ≡ source_count r)
    room = omega (arith, length-tried-le r v)

    by_delayed :
        (ds : List (Option ℕ))
        → r.delayed ≡ ds
        → length (tried r) ≡ source_count r
        → SelectCases draw lb r
    by_delayed [] d full = inr (select_exhausted draw lb r v full d, (full, d))
    by_delayed (o ∷ rest) d full =
        let (e, f, x, v', m) = select_retry draw lb r v o rest full d in
        inl (_, e, f, v', x, refl, inr ((o, rest, refl, full, d, x), m))

true≢false' : {b : Bool} → b ≡ true → b ≡ false → ⊥
true≢false' h k = cc

abbrev Kind : LoadBalancingResult → LoadBalancingResult → Type 0
Kind r r' = IsNew r r' × (left r' + 2 ≤ left r) ⊎ IsRetry r r' × (left r' + 1 ≤ left r)

chosen : (r r' : LoadBalancingResult) → Kind r r' → IsNew r r' ⊎ IsRetry r r'
chosen r r' (inl k) = inl k.0
chosen r r' (inr k) = inr k.0

-- A retried source is not delayed again, since all were tried.
pub retry-is_delayed : (r r' : LoadBalancingResult) → IsRetry r r' → is_delayed r' ≡ true
unfolding is_delayed
retry-is_delayed r r' (o, rest, e, full, d, x) = rw e (rw full (ground arith))

Kind-lt : (r r' : LoadBalancingResult) → Kind r r' → left r' < left r
Kind-lt r r' (inl k) = omega arith
Kind-lt r r' (inr k) = omega arith

Outcome-cases :
    (o : Outcome)
    → ((result : Result EgressError EgressResponse) × (o ≡ done result))
      ⊎ ((r : LoadBalancingResult) × (o ≡ again r))
Outcome-cases (done result) = inl (result, refl)
Outcome-cases (again r) = inr (r, refl)

module _ {R Client : Type 0} (as_selector : AsSelector R) (name_string : NamespacedName → String)
    (is_condition_true : IsConditionTrue) (c : Call) where
  -- An attempt that goes on leaves the progress as it is, or delays the source.
  pub attempt_repeats :
      (w : World R Client) (r r' : LoadBalancingResult)
      → attempt as_selector name_string is_condition_true c w r ≡ again r'
      → (r' ≡ r) ⊎ ((r' ≡ delay r) × (is_delayed r ≡ false))
  unfolding attempt
  attempt_repeats w r r' e = ground arith

  -- An attempt that goes on keeps the invariant, and there is less left.
  again-IsProper :
      (w : World R Client) (r r' r'' : LoadBalancingResult)
      → IsProper r'
      → IsIndex (source_count r') r'.current_index
      → Kind r r'
      → attempt as_selector name_string is_condition_true c w r' ≡ again r''
      → IsProper r'' × (r''.imp ≡ r'.imp) × (left r'' < left r)
  again-IsProper w r r' r'' v x kind g = elim (attempt_repeats w r' r'' g) [
    | inl e ↦ (
      subst IsProper (sym e) v,
      ap (λ (q : LoadBalancingResult). q.imp) e,
      subst (λ (q : LoadBalancingResult). left q < left r) (sym e) (Kind-lt r r' kind),
    )
    | inr (e, waits) ↦ elim kind [
      | inl (_, m) ↦
          let (v', l) = delay_lem r' v x in
          (subst IsProper (sym e) v', rw e (unfold delay in refl), rw e (omega arith))
      | inr (k, _) ↦ absurd (true≢false' (retry-is_delayed r r' k) waits)
    ]
  ]

  module _ (world : ℕ → World R Client) (known : IsKnown c.imp)
      (draws : (a : ℕ) → 0 < length c.imp.sources → (world a).draw < length c.imp.sources)
      (J : LoadBalancingResult → Type 0) (Q : Result EgressError EgressResponse → Type 0)
      (exhausted : (r : LoadBalancingResult)
        → IsProper r
        → r.imp ≡ c.imp
        → J r
        → IsExhausted r
        → Q (err (cannot_select (tried_out_all (source_count r)))))
      (finish : (a : ℕ) (r r' : LoadBalancingResult) (result : Result EgressError EgressResponse)
        → IsProper r
        → r'.imp ≡ c.imp
        → IsIndex (source_count r') r'.current_index
        → J r
        → IsNew r r' ⊎ IsRetry r r'
        → attempt as_selector name_string is_condition_true c (world a) r' ≡ done result
        → Q result)
      (go_on : (a : ℕ) (r r' r'' : LoadBalancingResult)
        → IsProper r
        → r'.imp ≡ c.imp
        → IsIndex (source_count r') r'.current_index
        → J r
        → IsNew r r' ⊎ IsRetry r r'
        → attempt as_selector name_string is_condition_true c (world a) r' ≡ again r''
        → J r'') where
    pub egress_loop_rule :
        (fuel a : ℕ) (lb : LoadBalancer) (r : LoadBalancingResult)
        → IsProper r
        → r.imp ≡ c.imp
        → J r
        → left r < fuel
        → Q (egress_loop as_selector name_string is_condition_true c world fuel a lb r).1
    unfolding egress_loop
    egress_loop_rule zero a lb r v same j h = absurd (omega arith)
    egress_loop_rule (suc fuel) a lb r v same j h =
        elim (select_cases (world a).draw lb r v (subst IsKnown (sym same) known) (
          subst (λ (i : Import). 0 < length i.sources → (world a).draw < length i.sources)
            (sym same) (draws a))) [
              | inr (f, ex) ↦ rw (f, egress_loop) (exhausted r v same j ex)
              | inl (r', e, f, v', x, imp', kind) ↦
                  elim (Outcome-cases
                    (attempt as_selector name_string is_condition_true c (world a) r')) [
                      | inl (result, d) ↦
                          rw (f, egress_loop)
                            (rw e (
                              rw d (finish a r r' result v (imp' ∙ same) x j (chosen r r' kind) d)))
                      | inr (r'', g) ↦
                          let (v'', same'', less) = again-IsProper (world a) r r' r'' v' x kind g in
                          rw (f, egress_loop)
                            (rw e (
                              rw g (
                                egress_loop_rule fuel (a + 1) _ r'' v'' (same'' ∙ imp' ∙ same)
                                  (go_on a r r' r'' v (imp' ∙ same) x j (chosen r r' kind) g)
                                  (omega arith))))
                    ]
            ]
