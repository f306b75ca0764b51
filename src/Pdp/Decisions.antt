-- ===== src/Pdp/Decisions.antt =====
-- What a map, a tier and the whole decision point decide, in terms of the policies that match.
use clusterlink.Common.{
  String, Bool, true, false, not, ◌&&◌, ◌≡◌, refl, ◌⊎◌, inl, inr, [], ◌∷◌, Result, ok, All, Any,
  arith, if◌then◌else◌, str_eq, eq_iff, Bool-cases, ◌∙◌,
}
use clusterlink.Crds.Names.{NamespacedName}
use clusterlink.Crds.Policies.{AsSelector, AccessPolicySpec, action_allow}
use clusterlink.Pdp.Matching.{
  WorkloadAttrs, Decision, allow, deny, access_policy_matches, access_policy_decide,
}
use clusterlink.Pdp.Tiers.{ConnPolicyMap, PolicyTier, Pdp, DestinationDecision, map_decide}
use clusterlink.Pdp.Matches.{IsConvertible, Matches, access_policy_matches-answers}

-- The decision of a policy with this action, where it matches.
abbrev pub verdict : String → Decision
verdict action = if str_eq action action_allow then allow else deny

module _ {R : Type 0} (as_selector : AsSelector R) where
  abbrev pub Entry : Type 0
  Entry = NamespacedName × AccessPolicySpec R

  -- Every policy of the map can be evaluated, and they all decide `v`.
  abbrev pub AllDecide : Decision → ConnPolicyMap R → Type 0
  AllDecide v = All (λ (e : Entry). IsConvertible as_selector e.1 × (verdict e.1.action ≡ v))

  -- The entry is in force for the namespace, and its policy matches the connection.
  abbrev pub Applies : WorkloadAttrs → WorkloadAttrs → Bool → String → Entry → Type 0
  Applies src dest privileged ns e =
      ((privileged ≡ true) ⊎ (e.0.namespace ≡ ns)) × Matches as_selector src dest e.1

  abbrev pub Denies : WorkloadAttrs → WorkloadAttrs → String → PolicyTier R → Type 0
  Denies src dest ns pt = Any (Applies src dest pt.privileged ns) pt.deny_policies

  abbrev pub Allows : WorkloadAttrs → WorkloadAttrs → String → PolicyTier R → Type 0
  Allows src dest ns pt = Any (Applies src dest pt.privileged ns) pt.allow_policies

  -- The documented precedence: privileged before regular policies, deny before allow in a tier,
  -- and no connection that no policy allows.
  abbrev pub Permitted : WorkloadAttrs → WorkloadAttrs → String → Pdp R → Type 0
  Permitted src dest ns pdp =
      (¬ Denies src dest ns pdp.privileged_policies)
      × (Allows src dest ns pdp.privileged_policies
          ⊎ (¬ Denies src dest ns pdp.regular_policies) × Allows src dest ns pdp.regular_policies)

  pub considers :
      (privileged : Bool) (k : NamespacedName) (ns : String)
      → ((not privileged && not (str_eq k.namespace ns) ≡ true)
          × (¬ ((privileged ≡ true) ⊎ (k.namespace ≡ ns))))
        ⊎ ((not privileged && not (str_eq k.namespace ns) ≡ false)
            × ((privileged ≡ true) ⊎ (k.namespace ≡ ns)))
  considers true k ns = inr (refl, inl refl)
  considers false k ns = elim (Bool-cases (str_eq k.namespace ns)) [
    | inl same ↦ inr (rw same, inr ((eq_iff _ _).0 same))
    | inr other ↦
        inl (rw other, elim [ inl e ↦ cc | inr e ↦ ground (arith, eq_iff k.namespace ns) ])
  ]

  -- The record that a decision `v` leaves names an entry of the map that applies.
  abbrev pub Reports :
      (NamespacedName → String)
      → WorkloadAttrs
      → Bool
      → String
      → ConnPolicyMap R
      → DestinationDecision
      → Type 0
  Reports name_string src privileged ns m d =
      Any
        (λ e.
          Applies src d.destination privileged ns e
          × (d.decision ≡ verdict e.1.action)
          × (d.matched_by ≡ name_string e.0)
          × (d.privileged_match ≡ privileged))
        m

  abbrev pub MapOutcome :
      (NamespacedName → String)
      → WorkloadAttrs
      → DestinationDecision
      → Bool
      → String
      → Decision
      → ConnPolicyMap R
      → Result String (Bool × DestinationDecision)
      → Type 0
  MapOutcome name_string src dest privileged ns v m r =
      ((d : DestinationDecision) × (r ≡ ok (true, d))
        × (d.decision ≡ v)
        × (d.destination ≡ dest.destination)
        × Any (Applies src dest.destination privileged ns) m
        × Reports name_string src privileged ns m d)
      ⊎ ((r ≡ ok (false, dest)) × (¬ Any (Applies src dest.destination privileged ns) m))

  module _ (name_string : NamespacedName → String) where
    abbrev pub Outcome :
        WorkloadAttrs → DestinationDecision → Bool → String → Decision → ConnPolicyMap R → Type 0
    Outcome src dest privileged ns v m =
        MapOutcome name_string src dest privileged ns v m
          (map_decide as_selector name_string src dest privileged ns m)

    -- A matching entry decides at once.
    pub entry_hit :
        (src : WorkloadAttrs) (dest : DestinationDecision) (privileged : Bool) (ns : String)
        (v : Decision) (k : NamespacedName) (policy : AccessPolicySpec R) (m : ConnPolicyMap R)
        → not privileged && not (str_eq k.namespace ns) ≡ false
        → (privileged ≡ true) ⊎ (k.namespace ≡ ns)
        → access_policy_matches as_selector policy src dest.destination ≡ ok true
        → Matches as_selector src dest.destination policy
        → verdict policy.action ≡ v
        → Outcome src dest privileged ns v ((k, policy) ∷ m)
    unfolding map_decide access_policy_decide
    entry_hit src dest privileged ns v k policy m keep inside hit ms ver =
        elim (Bool-cases (str_eq policy.action action_allow)) [
          | inl yes_allow ↦ inl (
            record dest {
              decision = allow;
              matched_by = name_string k;
              privileged_match = privileged;
            },
            rw (keep, hit, yes_allow) refl,
            ground arith,
            refl,
            inl (inside, ms),
            inl ((inside, ms), ground arith, refl, refl),
          )
          | inr not_allow ↦ inl (
            record dest {
              decision = deny;
              matched_by = name_string k;
              privileged_match = privileged;
            },
            rw (keep, hit, not_allow) refl,
            ground arith,
            refl,
            inl (inside, ms),
            inl ((inside, ms), ground arith, refl, refl),
          )
        ]

    -- An entry that is skipped, or does not match, leaves the decision to the rest.
    entry_miss :
        (src : WorkloadAttrs) (dest : DestinationDecision) (privileged : Bool) (ns : String)
        (v : Decision) (e : Entry) (m : ConnPolicyMap R)
        → map_decide as_selector name_string src dest privileged ns (e ∷ m)
          ≡ map_decide as_selector name_string src dest privileged ns m
        → (¬ Applies src dest.destination privileged ns e)
        → Outcome src dest privileged ns v m
        → Outcome src dest privileged ns v (e ∷ m)
    entry_miss src dest privileged ns v e m same out (inl (d, r, dec, dst, a, rep)) =
        inl (d, same ∙ r, dec, dst, inr a, inr rep)
    entry_miss src dest privileged ns v e m same out (inr (r, na)) =
        inr (same ∙ r, elim [ inl a ↦ out a | inr a ↦ na a ])

    pub map_decide-outcome :
        (src : WorkloadAttrs) (dest : DestinationDecision) (privileged : Bool) (ns : String)
        (v : Decision) (m : ConnPolicyMap R)
        → AllDecide v m
        → Outcome src dest privileged ns v m
    unfolding map_decide access_policy_decide
    map_decide-outcome src dest privileged ns v [] h = inr (refl, λ a. a)
    map_decide-outcome src dest privileged ns v ((k, policy) ∷ m) h =
        let rest = map_decide-outcome src dest privileged ns v m h.1 in
        elim (considers privileged k ns) [
          | inl (skip, out) ↦
              entry_miss src dest privileged ns v (k, policy) m (rw skip) (λ a. out a.0) rest
          | inr (keep, inside) ↦
              elim (access_policy_matches-answers as_selector policy src dest.destination h.0.0) [
                | inl (hit, ms) ↦
                    entry_hit src dest privileged ns v k policy m keep inside hit ms h.0.1
                | inr (miss, nm) ↦
                    entry_miss src dest privileged ns v (k, policy) m (rw (keep, miss))
                      (λ a. nm a.1) rest
              ]
        ]
