-- ===== src/Authz/Ingress/Granted.antt =====
-- What a granted ingress request rests on, and what its token is worth.
use clusterlink.Common.{
  ℕ, ◌+◌, ◌≡◌, refl, ◌⊎◌, inl, inr, String, true, false, ◌&&◌, Option, none, some, Result, ok, err,
  nat_eq, length, string_eq, arith, Result-cases, Bool-cases,
}
use clusterlink.Crds.Names.{NamespacedName}
use clusterlink.Crds.Policies.{AsSelector}
use clusterlink.Crds.Peers.{Export}
use clusterlink.Pdp.Matching.{Decision, undecided, allow, deny}
use clusterlink.Pdp.Tiers.{DestinationDecision, decide, depends_on_client_attrs}
use clusterlink.Kube.{ApiError}
use clusterlink.Authz.Egress.{IsConditionTrue}
use clusterlink.Authz.Ingress.{
  Jwt, IngressSelf, IngressRequest, IngressResponse, service_claims, jwt_expiry_seconds, sign_token,
  issue_token, after_ingress_decision, ingress_dst, authorize_export, authorize_ingress,
}

decision_cases : (d : Decision) → (d ≡ allow) ⊎ ((d ≡ undecided) ⊎ (d ≡ deny))
decision_cases allow = inl refl
decision_cases undecided = inr (inl refl)
decision_cases deny = inr (inr refl)

module _ {Key Token : Type 0} (jwt : Jwt Key Token) where
  -- A token of the library for a service, signed at a time.
  abbrev pub Signed : Option Key → ℕ → NamespacedName → String → Type 0
  Signed key now service text =
      (k : Key) × (token : Token) × (key ≡ some k)
      × (jwt.build (now + jwt_expiry_seconds) (service_claims service) ≡ ok token)
      × (jwt.sign token k ≡ ok text)

  sign_token-ok :
      (key : Option Key) (token : Token) (resp : IngressResponse)
      → sign_token jwt key token ≡ ok resp
      → (k : Key) × (key ≡ some k) × (jwt.sign token k ≡ ok resp.access_token)
  unfolding sign_token
  sign_token-ok none token resp h = absurd (cc)
  sign_token-ok (some k) token resp h = (k, refl, ground arith)

  issue_token-ok :
      (key : Option Key) (now : ℕ) (service : NamespacedName) (resp : IngressResponse)
      → issue_token jwt key now service ≡ ok resp
      → Signed key now service resp.access_token
  unfolding issue_token
  issue_token-ok key now service resp h =
      elim (Result-cases (jwt.build (now + jwt_expiry_seconds) (service_claims service))) [
        | inl (token, e) ↦
            let (k, same, signed) = sign_token-ok key token resp (ground arith) in
            (k, token, same, e, signed)
        | inr (x, e) ↦ absurd (ground arith)
      ]

  module _ {R : Type 0} (as_selector : AsSelector R) (name_string : NamespacedName → String)
      (is_condition_true : IsConditionTrue) (m : IngressSelf R Key) (now : ℕ) (req : IngressRequest)
      (resp : IngressResponse) (good : resp.allowed ≡ true) where
    after_ingress_decision-ok :
        (r : Result String DestinationDecision)
        → after_ingress_decision jwt as_selector name_string is_condition_true m now req r ≡ ok resp
        → ((d : DestinationDecision) × (r ≡ ok d) × (d.decision ≡ allow))
          × Signed m.jwk_key now req.service_name resp.access_token
    unfolding after_ingress_decision
    after_ingress_decision-ok (err e) h = absurd (cc)
    after_ingress_decision-ok (ok d) h = elim (decision_cases d.decision) [
      | inl e ↦ ((d, refl, e), issue_token-ok m.jwk_key now req.service_name resp (ground arith))
      | inr e ↦ absurd (ground arith)
    ]

    authorize_export-ok :
        (export : Export)
        → authorize_export jwt as_selector name_string is_condition_true m now req export ≡ ok resp
        → ((nat_eq (length req.src_attributes) 0 && depends_on_client_attrs m.pdp) ≡ false)
          × ((d : DestinationDecision) × (decide as_selector name_string req.src_attributes
                  (ingress_dst jwt as_selector name_string is_condition_true m now req export)
                  req.service_name.namespace
                  m.pdp
                ≡ ok d)
              × (d.decision ≡ allow))
          × Signed m.jwk_key now req.service_name resp.access_token
    unfolding authorize_export
    authorize_export-ok export h =
        elim (Bool-cases (nat_eq (length req.src_attributes) 0 && depends_on_client_attrs m.pdp)) [
          | inl blind ↦ absurd (ground arith)
          | inr sees ↦
              let (allowed, signed) = after_ingress_decision-ok _ (rw sees at h) in
              (sees, allowed, signed)
        ]

    -- A granted request names an export that exists, had client attributes if the policies need
    -- them, was allowed by the decision point, and carries a token for the service that was signed
    -- with the manager's key and expires in five seconds.
    pub ingress_granted :
        (get_export : NamespacedName → Result ApiError Export)
        → authorize_ingress jwt as_selector name_string is_condition_true m now req get_export
          ≡ ok resp
        → (export : Export) × (get_export req.service_name ≡ ok export)
          × ((nat_eq (length req.src_attributes) 0 && depends_on_client_attrs m.pdp) ≡ false)
          × ((d : DestinationDecision) × (decide as_selector name_string req.src_attributes
                  (ingress_dst jwt as_selector name_string is_condition_true m now req export)
                  req.service_name.namespace
                  m.pdp
                ≡ ok d)
              × (d.decision ≡ allow))
          × Signed m.jwk_key now req.service_name resp.access_token
    unfolding authorize_ingress
    ingress_granted get_export h = elim (Result-cases (get_export req.service_name)) [
      | inl (export, e) ↦
          let (sees, allowed, signed) = authorize_export-ok export (ground arith) in
          (export, e, sees, allowed, signed)
      | inr (x, e) ↦ absurd (ground arith)
    ]
