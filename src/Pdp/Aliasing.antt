-- ===== src/Pdp/Aliasing.antt =====
-- `getPolicies` binds `res` to the tier's own deny map and then writes the allow policies into it.
use clusterlink.Common.{
  String, Bool, true, false, not, ◌&&◌, ◌≡◌, refl, sym, ◌∙◌, ◌⊎◌, inl, inr, [], ◌∷◌, ok, arith,
  str_eq, none, some, Bool-cases, ◌==◌,
}
use clusterlink.Common.Maps.{
  lookup, insert, delete, lookup-insert, IsDistinct, IsDistinct-insert, All-lookup,
}
use clusterlink.Crds.Names.{NamespacedName, same_name_iff, name_eq}
use clusterlink.Crds.Policies.{AsSelector, AccessPolicySpec}
use clusterlink.Pdp.Matching.{WorkloadAttrs, allow, access_policy_matches}
use clusterlink.Pdp.Tiers.{
  ConnPolicyMap, PolicyTier, DestinationDecision, insert_all, get_policies, tier_decide,
}
use clusterlink.Pdp.Matches.{IsConvertible, Matches, access_policy_matches-answers}
use clusterlink.Pdp.Decisions.{Applies, considers, entry_hit, verdict}
use clusterlink.Pdp.Precedence.{IsSorted}

module _ {R : Type 0} where
  lookup-insert_all :
      (k : NamespacedName) (m res : ConnPolicyMap R)
      → IsDistinct m
      → lookup k (insert_all m res)
        ≡ elim (lookup k m) [ some spec ↦ some spec | none ↦ lookup k res ]
  unfolding lookup insert_all
  lookup-insert_all k [] res d = refl
  lookup-insert_all k ((j, spec) ∷ m) res d = ground (
    arith,
    same_name_iff j k,
    lookup-insert_all k m (insert j spec res) d.1,
    lookup-insert j k spec res,
  )

  -- Reading the policies moves every allow policy into the deny map as well.
  pub get_policies_aliases :
      (pt : PolicyTier R) (k : NamespacedName)
      → IsDistinct pt.allow_policies
      → let pt' = (get_policies pt).0 in
        (lookup k pt'.deny_policies ≡ elim (lookup k pt.allow_policies) [
          | some spec ↦ some spec
          | none ↦ lookup k pt.deny_policies
        ])
        × (pt'.allow_policies ≡ pt.allow_policies)
  unfolding get_policies
  get_policies_aliases pt k d = (lookup-insert_all k pt.allow_policies pt.deny_policies d, refl)

  insert_all-IsDistinct : (m res : ConnPolicyMap R) → IsDistinct res → IsDistinct (insert_all m res)
  unfolding insert_all
  insert_all-IsDistinct [] res d = d
  insert_all-IsDistinct ((k, spec) ∷ m) res d =
      insert_all-IsDistinct m (insert k spec res) (IsDistinct-insert k spec res d)

  -- The same map in an order in which an entry that it has comes first.
  first-lookup :
      (k j : NamespacedName) (spec : AccessPolicySpec R) (m : ConnPolicyMap R)
      → lookup k m ≡ some spec
      → lookup j (insert k spec m) ≡ lookup j m
  first-lookup k j spec m h = elim (Bool-cases (k == j)) [
    | inl same ↦
        let one : k ≡ j = (same_name_iff k j).0 same in
        lookup-insert k j spec m ∙ rw same (sym (rw one at h))
    | inr other ↦ lookup-insert k j spec m ∙ rw other refl
  ]

module _ {R : Type 0} (as_selector : AsSelector R) (name_string : NamespacedName → String) where
  hit_of_applies :
      (policy : AccessPolicySpec R) (src dest : WorkloadAttrs)
      → IsConvertible as_selector policy
      → Matches as_selector src dest policy
      → access_policy_matches as_selector policy src dest ≡ ok true
  hit_of_applies policy src dest c m =
      elim (access_policy_matches-answers as_selector policy src dest c) [
        | inl (e, _) ↦ e
        | inr (_, nm) ↦ absurd (nm m)
      ]

  in_force :
      (privileged : Bool) (k : NamespacedName) (ns : String)
      → (privileged ≡ true) ⊎ (k.namespace ≡ ns)
      → not privileged && not (str_eq k.namespace ns) ≡ false
  in_force privileged k ns h = elim (considers as_selector privileged k ns) [
    | inl (_, out) ↦ absurd (out h)
    | inr (e, _) ↦ e
  ]

  -- A tier whose deny map has an allow policy first allows what that policy matches.
  first_allows :
      (pt : PolicyTier R) (k : NamespacedName) (spec : AccessPolicySpec R) (src : WorkloadAttrs)
      (dest : DestinationDecision) (ns : String) (rest : ConnPolicyMap R)
      → IsConvertible as_selector spec × (verdict spec.action ≡ allow)
      → Applies as_selector src dest.destination pt.privileged ns (k, spec)
      → (d : DestinationDecision) × (tier_decide as_selector name_string src dest ns
            (record pt { deny_policies = (k, spec) ∷ rest })
          ≡ ok (true, d))
        × (d.decision ≡ allow)
  unfolding tier_decide
  first_allows pt k spec src dest ns rest (c, ver) applies =
      elim (entry_hit as_selector name_string src dest pt.privileged ns allow k spec rest
        (in_force pt.privileged k ns applies.0) applies.0
        (hit_of_applies spec src dest.destination c applies.1) applies.1 ver) [
          | inl (d, e, dec, _, _, _) ↦ (d, rw e refl, dec)
          | inr (_, na) ↦ absurd (na (inl applies))
        ]

  -- After the policies of a tier with sorted policies, no two of one name, were read, its deny map
  -- has an order in which the tier allows a connection that an allow policy matches, whatever its deny
  -- policies say.
  pub get_policies_may_allow :
      (pt : PolicyTier R) (k : NamespacedName) (spec : AccessPolicySpec R) (src : WorkloadAttrs)
      (dest : DestinationDecision) (ns : String)
      → IsSorted as_selector pt
      → IsDistinct pt.deny_policies
      → IsDistinct pt.allow_policies
      → lookup k pt.allow_policies ≡ some spec
      → Applies as_selector src dest.destination pt.privileged ns (k, spec)
      → let pt' = (get_policies pt).0 in
        (order : ConnPolicyMap R) × IsDistinct order
        × ((j : NamespacedName) → lookup j order ≡ lookup j pt'.deny_policies)
        × (d : DestinationDecision) × (tier_decide as_selector name_string src dest ns
              (record pt' { deny_policies = order })
            ≡ ok (true, d))
        × (d.decision ≡ allow)
  unfolding get_policies insert
  get_policies_may_allow pt k spec src dest ns v denies allows held applies =
      let all = insert_all pt.allow_policies pt.deny_policies in
      let there : lookup k all ≡ some spec = (get_policies_aliases pt k allows).0 ∙ rw held refl in
      let (d, e, dec) =
        first_allows pt k spec src dest ns (delete k all)
          (All-lookup _ k spec pt.allow_policies v.allowing held) applies in
      (
        insert k spec all,
        IsDistinct-insert k spec all
            (insert_all-IsDistinct pt.allow_policies pt.deny_policies denies),
        (λ j. first-lookup k j spec all there),
        d,
        e,
        dec,
      )
