-- ===== src/Authz/Egress/Sound.antt =====
-- Every egress request gets an answer, and a granted one rests on a decision and a token.
use clusterlink.Common.{
  ℕ, ◌+◌, ◌*◌, ◌<◌, ◌≡◌, ◌≢◌, refl, sym, ap, ◌∙◌, subst, ◌⊎◌, inl, inr, String, true, ◌&&◌, Option,
  none, some, Result, ok, err, arith, length, get_elem?, Option-cases, Bool-cases, nat_eq,
}
use clusterlink.Crds.Names.{NamespacedName}
use clusterlink.Crds.Policies.{AsSelector}
use clusterlink.Crds.Imports.{Import, ImportSource}
use clusterlink.Pdp.Tiers.{depends_on_client_attrs}
use clusterlink.Balancer.Select.{LoadBalancer, new_load_balancing_result}
use clusterlink.Balancer.Progress.{IsKnown, new-IsProper}
use clusterlink.Balancer.Attempts.{left}
use clusterlink.Authz.Attributes.{get_src_attributes}
use clusterlink.Authz.Egress.{
  World, Call, IsConditionTrue, EgressError, EgressRequest, EgressResponse, nil_source, out_of_fuel,
  egress_loop, authorize_egress, Self, no_client_attributes, cannot_get_import, done,
}
use clusterlink.Authz.Egress.Loop.{egress_loop_rule}
use clusterlink.Authz.Egress.Steps.{Granted, attempt-ok, attempt_answers, get_elem?_of_get}

-- The call that a request leads to, once its import is known.
abbrev pub call_of : Self → EgressRequest → Import → Call
call_of m req imp = record {
  namespace = m.namespace;
  imp = imp;
  import_name = req.import_name;
  src_attributes = get_src_attributes m.peer_name m.peer_labels m.pods req.ip;
}

-- `rand.Intn(n)` returns a number below `n`, in every attempt.
abbrev pub DrawsIn : {R Client : Type 0} → (ℕ → World R Client) → Import → Type 0
DrawsIn world imp = (a : ℕ) → 0 < length imp.sources → (world a).draw < length imp.sources

-- No client attributes, while some policy depends on such.
abbrev pub IsBlind : {R Client : Type 0} → Self → (ℕ → World R Client) → EgressRequest → Type 0
IsBlind m world req =
    (nat_eq (length (get_src_attributes m.peer_name m.peer_labels m.pods req.ip)) 0
      && depends_on_client_attrs (world 0).pdp)
    ≡ true

module _ {R Client : Type 0} (as_selector : AsSelector R) (name_string : NamespacedName → String)
    (is_condition_true : IsConditionTrue) (m : Self) (get_import : NamespacedName → Option Import)
    (world : ℕ → World R Client) (lb : LoadBalancer) (req : EgressRequest) where
  abbrev pub answer : Result EgressError EgressResponse
  answer = (authorize_egress as_selector name_string is_condition_true m get_import world lb req).1

  -- The result of a loop from the start, with the fuel that the model gives.
  abbrev pub loop_answer : Import → Result EgressError EgressResponse
  loop_answer imp =
      (egress_loop as_selector name_string is_condition_true (call_of m req imp) world
        (2 * length imp.sources + 1) 0 lb (new_load_balancing_result imp)).1

  -- The request fails before the loop, or the loop gives its answer.
  pub answer_cases :
      ((answer ≡ err no_client_attributes) × IsBlind m world req)
      ⊎ ((answer ≡ err cannot_get_import) × (get_import req.import_name ≡ none))
      ⊎ ((imp : Import) × (answer ≡ loop_answer imp)
          × (get_import req.import_name ≡ some imp)
          × (¬ IsBlind m world req))
  unfolding authorize_egress
  answer_cases =
      elim (Bool-cases (
        nat_eq (length (get_src_attributes m.peer_name m.peer_labels m.pods req.ip)) 0
        && depends_on_client_attrs (world 0).pdp)) [
          | inl blind ↦ inl (rw (blind, answer) refl, blind)
          | inr sees ↦ elim (Option-cases (get_import req.import_name)) [
            | inl missing ↦ inr (inl (rw (sees, missing, answer) refl, missing))
            | inr (imp, found) ↦ inr (inr (imp, rw (sees, found, answer) refl, found, λ b. cc))
          ]
        ]

  pub start_left :
      (imp : Import) → left (new_load_balancing_result imp) < 2 * length imp.sources + 1
  unfolding new_load_balancing_result
  start_left imp = omega arith

  pub start_imp : (imp : Import) → (new_load_balancing_result imp).imp ≡ imp
  unfolding new_load_balancing_result
  start_imp imp = refl

  loop_answers :
      (imp : Import)
      → IsKnown imp
      → DrawsIn world imp
      → (loop_answer imp ≢ err out_of_fuel) × (loop_answer imp ≢ err nil_source)
  loop_answers imp known draws =
      egress_loop_rule as_selector name_string is_condition_true (call_of m req imp) world known
        draws (λ r. Unit {0}) (λ result. (result ≢ err out_of_fuel) × (result ≢ err nil_source))
        (λ r v same j ex. (λ e. cc, λ e. cc))
        (λ a r r' result v same x j k e.
          attempt_answers as_selector name_string is_condition_true (call_of m req imp) (world a) r'
            result x e)
        (λ a r r' r'' v same x j k e. tt) (2 * length imp.sources + 1) 0 lb
        (new_load_balancing_result imp) (new-IsProper imp) (start_imp imp) tt (start_left imp)

  -- With a load balancing scheme that is known, every request is answered within two attempts
  -- for each source, and no attempt looks for a source that is not there.
  pub egress_answers :
      ((imp : Import) → get_import req.import_name ≡ some imp → IsKnown imp × DrawsIn world imp)
      → (answer ≢ err out_of_fuel) × (answer ≢ err nil_source)
  egress_answers h = elim answer_cases [
    | inl (e, _) ↦ (λ x. cc, λ x. cc)
    | inr (inl (e, _)) ↦ (λ x. cc, λ x. cc)
    | inr (inr (imp, e, found, _)) ↦
        let (known, draws) = h imp found in
        let l = loop_answers imp known draws in (λ x. l.0 (sym e ∙ x), λ x. l.1 (sym e ∙ x))
  ]

  abbrev pub GrantedBy : Import → EgressResponse → Type 0
  GrantedBy imp resp =
      (a : ℕ) × (i : ℕ) × (source : ImportSource) × (get_elem? imp.sources i ≡ some source)
      × Granted as_selector name_string is_condition_true (call_of m req imp) (world a) source resp

  loop_granted :
      (imp : Import) (resp : EgressResponse)
      → IsKnown imp
      → DrawsIn world imp
      → loop_answer imp ≡ ok resp
      → GrantedBy imp resp
  loop_granted imp resp known draws h =
      egress_loop_rule as_selector name_string is_condition_true (call_of m req imp) world known
        draws (λ r. Unit {0}) (λ result. result ≡ ok resp → GrantedBy imp resp)
        (λ r v same j ex e. absurd (cc))
        (λ a r r' result v same x j k e good.
          let (source, found, g) =
            attempt-ok as_selector name_string is_condition_true (call_of m req imp) (world a) r'
              resp (e ∙ ap done good) in
          let (i, at) =
            get_elem?_of_get as_selector name_string is_condition_true (call_of m req imp) (world a)
              r' source found in
          (a, i, source, subst (λ (p : Import). get_elem? p.sources i ≡ some source) same at, g))
        (λ a r r' r'' v same x j k e. tt) (2 * length imp.sources + 1) 0 lb
        (new_load_balancing_result imp) (new-IsProper imp) (start_imp imp) tt (start_left imp) h

  -- A granted request is never blind, and rests on a source of the import whose connection the
  -- decision point allowed and whose peer gave the token.
  pub egress_granted :
      (resp : EgressResponse)
      → ((imp : Import) → get_import req.import_name ≡ some imp → IsKnown imp × DrawsIn world imp)
      → answer ≡ ok resp
      → (¬ IsBlind m world req)
        × ((imp : Import) × (get_import req.import_name ≡ some imp) × GrantedBy imp resp)
  egress_granted resp h good = elim answer_cases [
    | inl (e, _) ↦ absurd (cc)
    | inr (inl (e, _)) ↦ absurd (cc)
    | inr (inr (imp, e, found, sees)) ↦
        let (known, draws) = h imp found in
        (sees, (imp, found, loop_granted imp resp known draws (sym e ∙ good)))
  ]
