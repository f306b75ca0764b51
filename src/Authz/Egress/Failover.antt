-- ===== src/Authz/Egress/Failover.antt =====
-- A source that would serve the request is found, wherever it stands among the sources.
use clusterlink.Common.{
  ℕ, ◌+◌, ◌*◌, ◌<◌, ◌≡◌, ◌≢◌, refl, sym, ap, ◌∙◌, subst, inl, inr, String, false, Option, some,
  Result, ok, length, get_elem?, Any, Bool-cases, nat_eq, nat_eq_iff, ℕ_eq,
}
use clusterlink.Common.Maps.{lookup}
use clusterlink.Common.Pigeonhole.{full_has}
use clusterlink.Crds.Names.{NamespacedName}
use clusterlink.Crds.Policies.{AsSelector}
use clusterlink.Crds.Imports.{Import, ImportSource}
use clusterlink.Balancer.Select.{
  LoadBalancer, LoadBalancingResult, source_count, get, is_delayed, delay,
  new_load_balancing_result,
}
use clusterlink.Balancer.Progress.{
  IsKnown, IsIndex, IsProper, tried, tried-IsDistinct, tried-Below, new-IsProper,
}
use clusterlink.Authz.Egress.{
  World, Call, IsConditionTrue, again, done, EgressError, EgressRequest, EgressResponse, attempt,
  Self,
}
use clusterlink.Authz.Egress.Loop.{
  egress_loop_rule, IsNew, IsRetry, attempt_repeats, retry-is_delayed,
}
use clusterlink.Authz.Egress.Steps.{get_of_index, get_elem?_of_get}
use clusterlink.Authz.Egress.Turns.{
  Answerable, Serves, finished_turn, serving_again, Waits, Waits-delay, Waits-delayed, Waits-new,
  not_exhausted,
}
use clusterlink.Authz.Egress.Sound.{
  call_of, DrawsIn, IsBlind, answer, loop_answer, answer_cases, start_left, start_imp,
}

module _ {R Client : Type 0} (as_selector : AsSelector R) (name_string : NamespacedName → String)
    (is_condition_true : IsConditionTrue) (c : Call) (w : World R Client) (g : ℕ)
    (source : ImportSource) (at : get_elem? c.imp.sources g ≡ some source)
    (serves : Serves as_selector name_string c w source) where
  get_at :
      (r : LoadBalancingResult) → r.imp ≡ c.imp → r.current_index ≡ some g → get r ≡ some source
  unfolding get
  get_at r same i = rw (i, get) (rw same at)

  -- After an attempt at `g` that goes on, `g` is delayed.
  serving_delayed :
      (r r'' : LoadBalancingResult)
      → r.imp ≡ c.imp
      → r.current_index ≡ some g
      → attempt as_selector name_string is_condition_true c w r ≡ again r''
      → (r'' ≡ delay r) × (is_delayed r ≡ false)
  serving_delayed r r'' same i e =
      serving_again as_selector name_string is_condition_true c w r source (get_at r same i) r''
        serves e

  Waits-kept :
      (r r'' : LoadBalancingResult)
      → Waits g r
      → attempt as_selector name_string is_condition_true c w r ≡ again r''
      → Waits g r''
  Waits-kept r r'' h e =
      elim (attempt_repeats as_selector name_string is_condition_true c w r r'' e) [
        | inl same ↦ subst (Waits g) (sym same) h
        | inr (delayed, _) ↦ subst (Waits g) (sym delayed) (Waits-delay g r h)
      ]

  Waits-attempt_new :
      (r r' r'' : LoadBalancingResult)
      → r'.imp ≡ c.imp
      → Waits g r
      → IsNew r r'
      → attempt as_selector name_string is_condition_true c w r' ≡ again r''
      → Waits g r''
  Waits-attempt_new r r' r'' same h (i, e, lt, out) goes = elim (Bool-cases (nat_eq i g)) [
    | inl hit ↦
        let chosen : r'.current_index ≡ some g =
          ap (λ (q : LoadBalancingResult). q.current_index) e ∙ ap some ((nat_eq_iff i g).0 hit) in
        let (delayed, _) = serving_delayed r' r'' same chosen goes in
        subst (Waits g) (sym delayed) (Waits-delayed g r' chosen)
    | inr miss ↦
        let ne : i ≢ g = λ q. cc ((nat_eq_iff i g).1 q) in
        Waits-kept r' r'' (subst (Waits g) (sym e) (Waits-new g i r ne h)) goes
  ]

  Waits-attempt_retry :
      (r r' r'' : LoadBalancingResult)
      → IsProper r
      → g < source_count r
      → r'.imp ≡ c.imp
      → Waits g r
      → IsRetry r r'
      → attempt as_selector name_string is_condition_true c w r' ≡ again r''
      → Waits g r''
  Waits-attempt_retry r r' r'' v lt same (inl out) (o, rest, e, full, d, x) goes =
      let (u, has) =
        full_has (source_count r) g (tried r) (tried-IsDistinct r v) (tried-Below r v) full lt in
      absurd (cc)
  Waits-attempt_retry r r' r'' v lt same (inr h) (o, rest, e, full, d, x) goes =
      elim (subst (Any (λ p. p ≡ some g)) d h) [
        | inl first ↦
            let chosen : r'.current_index ≡ some g =
              ap (λ (q : LoadBalancingResult). q.current_index) e ∙ first in
            let (_, waits) = serving_delayed r' r'' same chosen goes in
            let retried = retry-is_delayed r r' (o, rest, e, full, d, x) in absurd (cc)
        | inr later ↦
            let kept : r'.delayed ≡ rest = ap (λ (q : LoadBalancingResult). q.delayed) e in
            Waits-kept r' r'' (inr (subst (Any (λ p. p ≡ some g)) (sym kept) later)) goes
      ]

module _ {R Client : Type 0} (as_selector : AsSelector R) (name_string : NamespacedName → String)
    (is_condition_true : IsConditionTrue) (m : Self) (get_import : NamespacedName → Option Import)
    (world : ℕ → World R Client) (lb : LoadBalancer) (req : EgressRequest) (imp : Import) where
  -- In every attempt, each source of the import is answerable.
  abbrev pub AllAnswerable : Type 0
  AllAnswerable =
      (a i : ℕ) (source : ImportSource)
      → get_elem? imp.sources i ≡ some source
      → Answerable as_selector name_string (call_of m req imp) (world a) source

  done_ok :
      (w : World R Client) (r : LoadBalancingResult) (result : Result EgressError EgressResponse)
      → ((i : ℕ) (source : ImportSource)
          → get_elem? imp.sources i ≡ some source
          → Answerable as_selector name_string (call_of m req imp) w source)
      → r.imp ≡ imp
      → IsIndex (source_count r) r.current_index
      → attempt as_selector name_string is_condition_true (call_of m req imp) w r ≡ done result
      → (resp : EgressResponse) × (result ≡ ok resp)
  done_ok w r result answerable same x e =
      let c : Call = call_of m req imp in
      let (source, found) = get_of_index as_selector name_string is_condition_true c w r x in
      let (i, at) = get_elem?_of_get as_selector name_string is_condition_true c w r source found in
      finished_turn as_selector name_string is_condition_true c w r source found result
        (answerable i source (subst (λ (p : Import). get_elem? p.sources i ≡ some source) same at))
        e

  start_pends : (g : ℕ) → Waits g (new_load_balancing_result imp)
  unfolding new_load_balancing_result lookup
  start_pends g = inl refl

  loop_ends_served :
      (g : ℕ) (source : ImportSource)
      → IsKnown imp
      → DrawsIn world imp
      → AllAnswerable
      → g < length imp.sources
      → get_elem? imp.sources g ≡ some source
      → ((a : ℕ) → Serves as_selector name_string (call_of m req imp) (world a) source)
      → (resp : EgressResponse) × (loop_answer as_selector name_string is_condition_true m
            get_import world lb req imp
          ≡ ok resp)
  loop_ends_served g source known draws answerable lt at serves =
      let c : Call = call_of m req imp in
      egress_loop_rule as_selector name_string is_condition_true c world known draws (Waits g)
        (λ result. (resp : EgressResponse) × (result ≡ ok resp))
        (λ r v same j ex.
          absurd
            (not_exhausted g r v (subst (λ (p : Import). g < length p.sources) (sym same) lt) j ex))
        (λ a r r' result v same x j k e. done_ok (world a) r' result (answerable a) same x e)
        (λ a r r' r'' v same x j k e. elim k [
          | inl new ↦
              Waits-attempt_new as_selector name_string is_condition_true c (world a) g source at
                (serves a) r r' r'' same j new e
          | inr retry ↦
              Waits-attempt_retry as_selector name_string is_condition_true c (world a) g source at
                (serves a) r r' r'' v
                (subst (λ (p : Import). g < length p.sources)
                  (sym (sym (ap (λ (q : LoadBalancingResult). q.imp) retry.2) ∙ same)) lt)
                same j retry e
        ])
        (2 * length imp.sources + 1) 0 lb (new_load_balancing_result imp) (new-IsProper imp)
        (start_imp as_selector name_string is_condition_true m get_import world lb req imp)
        (start_pends g)
        (start_left as_selector name_string is_condition_true m get_import world lb req imp)

  -- If the import is found, the client is not blind, no source causes an error that ends the
  -- request, and the source at `g` would serve it in every attempt, then the request is granted:
  -- sources before it that are denied, refused or unreachable, and the unreachability of its own
  -- peer, do not stop it.
  pub egress_failover :
      (g : ℕ) (source : ImportSource)
      → get_import req.import_name ≡ some imp
      → (¬ IsBlind m world req)
      → IsKnown imp
      → DrawsIn world imp
      → AllAnswerable
      → g < length imp.sources
      → get_elem? imp.sources g ≡ some source
      → ((a : ℕ) → Serves as_selector name_string (call_of m req imp) (world a) source)
      → (resp : EgressResponse) × (answer as_selector name_string is_condition_true m get_import
            world lb req
          ≡ ok resp)
  egress_failover g source found sees known draws answerable lt at serves =
      elim (answer_cases as_selector name_string is_condition_true m get_import world lb req) [
        | inl (_, blind) ↦ absurd (sees blind)
        | inr (inl (_, missing)) ↦ absurd (cc)
        | inr (inr (imp', e, found', _)) ↦
            let (resp, granted) = loop_ends_served g source known draws answerable lt at serves in
            let same : imp' ≡ imp = cc in
            (
              resp,
              e
                  ∙ ap
                      (loop_answer as_selector name_string is_condition_true m get_import world lb
                        req)
                      same
                  ∙ granted,
            )
      ]
