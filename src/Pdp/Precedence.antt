-- ===== src/Pdp/Precedence.antt =====
-- The decision over both tiers (PDP.Decide): it is always reached where the stored policies were
-- accepted by `Validate`, and it follows the documented precedence.
use clusterlink.Common.{String, true, false, ◌≡◌, refl, ◌⊎◌, inl, inr, ok, ◌≢◌, ◌↔◌, subst}
use clusterlink.Crds.Names.{NamespacedName}
use clusterlink.Crds.Policies.{AsSelector}
use clusterlink.Pdp.Matching.{WorkloadAttrs, undecided, allow, deny}
use clusterlink.Pdp.Tiers.{
  PolicyTier, Pdp, DestinationDecision, default_deny_policy_name, tier_decide, decide,
}
use clusterlink.Pdp.Decisions.{AllDecide, Denies, Allows, Permitted, Reports, map_decide-outcome}

module _ {R : Type 0} (as_selector : AsSelector R) where
  -- The deny map holds deny policies, the allow map allow policies, and all can be evaluated.
  pub record IsSorted (pt : PolicyTier R) : Type 0 where
    pub denying : AllDecide as_selector deny pt.deny_policies
    pub allowing : AllDecide as_selector allow pt.allow_policies

  module _ (name_string : NamespacedName → String) where
    -- The record names a policy of the tier that applies and has this decision.
    abbrev pub TierReports : WorkloadAttrs → String → PolicyTier R → DestinationDecision → Type 0
    TierReports src ns pt d =
        Reports as_selector name_string src pt.privileged ns pt.deny_policies d
        ⊎ Reports as_selector name_string src pt.privileged ns pt.allow_policies d

    abbrev TierDecided :
        WorkloadAttrs → DestinationDecision → String → PolicyTier R → DestinationDecision → Type 0
    TierDecided src dest ns pt d =
        ((d.decision ≡ deny) × Denies as_selector src dest.destination ns pt
          ⊎ (d.decision ≡ allow)
            × (¬ Denies as_selector src dest.destination ns pt)
            × Allows as_selector src dest.destination ns pt)
        × TierReports src ns pt d

    abbrev TierOutcome : WorkloadAttrs → DestinationDecision → String → PolicyTier R → Type 0
    TierOutcome src dest ns pt =
        ((d : DestinationDecision) × (tier_decide as_selector name_string src dest ns pt
            ≡ ok (true, d))
          × TierDecided src dest ns pt d)
        ⊎ ((tier_decide as_selector name_string src dest ns pt ≡ ok (false, dest))
            × (¬ Denies as_selector src dest.destination ns pt)
            × (¬ Allows as_selector src dest.destination ns pt))

    tier_outcome :
        (src : WorkloadAttrs) (dest : DestinationDecision) (ns : String) (pt : PolicyTier R)
        → IsSorted pt
        → TierOutcome src dest ns pt
    unfolding tier_decide
    tier_outcome src dest ns pt v =
        elim (map_decide-outcome as_selector name_string src dest pt.privileged ns deny
          pt.deny_policies v.denying) [
            | inl (d, e, dec, dst, a, rep) ↦ inl (d, rw e refl, (inl (dec, a), inl rep))
            | inr (e, nd) ↦
                elim (map_decide-outcome as_selector name_string src dest pt.privileged ns allow
                  pt.allow_policies v.allowing) [
                    | inl (d, e', dec, dst, a, rep) ↦
                        inl (d, rw (e, e') refl, (inr (dec, nd, a), inr rep))
                    | inr (e', na) ↦ inr (rw (e, e') refl, nd, na)
                  ]
          ]

    -- All that is known of a decision: which tier made it, or that no policy applies.
    abbrev pub Decided :
        WorkloadAttrs → WorkloadAttrs → String → Pdp R → DestinationDecision → Type 0
    Decided src dest ns pdp d =
        let start : DestinationDecision = record {
          destination = dest;
          decision = undecided;
          matched_by = "";
          privileged_match = false;
        } in
        TierDecided src start ns pdp.privileged_policies d
        ⊎ (¬ Denies as_selector src dest ns pdp.privileged_policies)
          × (¬ Allows as_selector src dest ns pdp.privileged_policies)
          × (TierDecided src start ns pdp.regular_policies d
              ⊎ (¬ Denies as_selector src dest ns pdp.regular_policies)
                × (¬ Allows as_selector src dest ns pdp.regular_policies)
                × (d.decision ≡ deny)
                × (d.matched_by ≡ default_deny_policy_name))

    pub decide-Decided :
        (src dest : WorkloadAttrs) (ns : String) (pdp : Pdp R)
        → IsSorted pdp.privileged_policies
        → IsSorted pdp.regular_policies
        → (d : DestinationDecision) × (decide as_selector name_string src dest ns pdp ≡ ok d)
          × Decided src dest ns pdp d
    unfolding decide
    decide-Decided src dest ns pdp vp vr =
        let start : DestinationDecision = record {
          destination = dest;
          decision = undecided;
          matched_by = "";
          privileged_match = false;
        } in
        elim (tier_outcome src start ns pdp.privileged_policies vp) [
          | inl (d, e, t) ↦ (d, rw e refl, inl t)
          | inr (e, nd, na) ↦ elim (tier_outcome src start ns pdp.regular_policies vr) [
            | inl (d, e', t) ↦ (d, rw (e, e') refl, inr (nd, na, inl t))
            | inr (e', nd', na') ↦ (
              record start {
                decision = deny;
                matched_by = default_deny_policy_name;
                privileged_match = false;
              },
              rw (e, e') refl,
              inr (nd, na, inr (nd', na', refl, refl)),
            )
          ]
        ]

    deny≢allow : (d : DestinationDecision) → d.decision ≡ deny → d.decision ≡ allow → ⊥
    deny≢allow d h k = cc

    pub Decided-Permitted :
        (src dest : WorkloadAttrs) (ns : String) (pdp : Pdp R) (d : DestinationDecision)
        → Decided src dest ns pdp d
        → (d.decision ≢ undecided) × ((d.decision ≡ allow) ↔ Permitted as_selector src dest ns pdp)
    Decided-Permitted src dest ns pdp d (inl (inl (dec, a), rep)) =
        (λ u. cc, (λ al. absurd (deny≢allow d dec al), λ p. absurd (p.0 a)))
    Decided-Permitted src dest ns pdp d (inl (inr (dec, nd, a), rep)) =
        (λ u. cc, (λ al. (nd, inl a), λ p. dec))
    Decided-Permitted src dest ns pdp d (inr (nd, na, inl (inl (dec, a), rep))) = (
      λ u. cc,
      (
        λ al. absurd (deny≢allow d dec al),
        λ p. elim p.1 [ inl b ↦ absurd (na b) | inr b ↦ absurd (b.0 a) ],
      ),
    )
    Decided-Permitted src dest ns pdp d (inr (nd, na, inl (inr (dec, nd', a), rep))) =
        (λ u. cc, (λ al. (nd, inr (nd', a)), λ p. dec))
    Decided-Permitted src dest ns pdp d (inr (nd, na, inr (nd', na', dec, by))) = (
      λ u. cc,
      (
        λ al. absurd (deny≢allow d dec al),
        λ p. elim p.1 [ inl b ↦ absurd (na b) | inr b ↦ absurd (na' b.1) ],
      ),
    )

    -- Where every stored policy sits in the map of its action and can be evaluated, the decision
    -- is made without an error, is never left open, and is "allow" exactly where the documented
    -- precedence permits the connection; so the order of the maps has no part in it.
    pub decide-allow_iff :
        (src dest : WorkloadAttrs) (ns : String) (pdp : Pdp R)
        → IsSorted pdp.privileged_policies
        → IsSorted pdp.regular_policies
        → (d : DestinationDecision) × (decide as_selector name_string src dest ns pdp ≡ ok d)
          × (d.decision ≢ undecided)
          × ((d.decision ≡ allow) ↔ Permitted as_selector src dest ns pdp)
    decide-allow_iff src dest ns pdp vp vr =
        let (d, e, h) = decide-Decided src dest ns pdp vp vr in
        let p = Decided-Permitted src dest ns pdp d h in (d, e, p.0, p.1)

    -- A decision names its policy: one of a tier that is in force and matches, with the decision
    -- of its action and the tier's privilege; or no policy at all applies, and the decision is
    -- the default deny.
    pub decide_reports :
        (src dest : WorkloadAttrs) (ns : String) (pdp : Pdp R) (d : DestinationDecision)
        → IsSorted pdp.privileged_policies
        → IsSorted pdp.regular_policies
        → decide as_selector name_string src dest ns pdp ≡ ok d
        → TierReports src ns pdp.privileged_policies d
          ⊎ TierReports src ns pdp.regular_policies d
          ⊎ ((d.decision ≡ deny)
              × (d.matched_by ≡ default_deny_policy_name)
              × (¬ Denies as_selector src dest ns pdp.privileged_policies)
              × (¬ Allows as_selector src dest ns pdp.privileged_policies)
              × (¬ Denies as_selector src dest ns pdp.regular_policies)
              × (¬ Allows as_selector src dest ns pdp.regular_policies))
    decide_reports src dest ns pdp d vp vr made =
        let (d', e, h) = decide-Decided src dest ns pdp vp vr in
        let same : d' ≡ d = cc in
        elim (subst (Decided src dest ns pdp) same h) [
          | inl t ↦ inl t.1
          | inr (nd, na, inl t) ↦ inr (inl t.1)
          | inr (nd, na, inr (nd', na', dec, by)) ↦ inr (inr (dec, by, nd, na, nd', na'))
        ]
