-- ===== src/Authz/Egress/Steps.antt =====
-- What one attempt of `authorizeEgress` does: the grounds of a response, and the ways to fail.
use clusterlink.Common.{
  ℕ, ◌≡◌, ◌≢◌, refl, subst, inl, inr, String, true, Option, none, some, Result, ok, err, arith,
  get_elem?, get_elem?_lt, Option-cases, string_eq,
}
use clusterlink.Common.Maps.{lookup}
use clusterlink.Crds.Names.{NamespacedName}
use clusterlink.Crds.Policies.{AsSelector}
use clusterlink.Crds.Imports.{ImportSource}
use clusterlink.Crds.Peers.{Peer}
use clusterlink.Pdp.Matching.{allow}
use clusterlink.Pdp.Tiers.{DestinationDecision, decide}
use clusterlink.Balancer.Select.{LoadBalancingResult, source_count, get}
use clusterlink.Balancer.Progress.{IsIndex}
use clusterlink.Authz.Egress.{
  World, Call, IsConditionTrue, done, EgressError, EgressResponse, nil_source, out_of_fuel, attempt,
  after_decision, call_peer, try_peer, authorization_request, dst_attributes, peer_key,
  remote_peer_cluster_name,
}

module _ {R Client : Type 0} (as_selector : AsSelector R) (name_string : NamespacedName → String)
    (is_condition_true : IsConditionTrue) where
  -- A source of the import, its peer with the peer's client, a decision to allow the connection,
  -- and a token of the remote peer: the grounds of a response, all found in one attempt.
  pub record Granted (c : Call) (w : World R Client) (source : ImportSource) (resp : EgressResponse)
      : Type 0 where
    pub peer : Peer
    pub client : Client
    pub decision : DestinationDecision
    pub peer_known : w.get_peer (peer_key c source) ≡ some peer
    pub decided :
        decide as_selector name_string c.src_attributes
          (dst_attributes c source peer)
          c.import_name.namespace
          w.pdp
        ≡ ok decision
    pub allowed : decision.decision ≡ allow
    pub has_client : lookup source.peer w.peer_client ≡ some client
    pub authorized : w.authorize client (authorization_request c source) ≡ ok resp.access_token
    pub response_allowed : resp.allowed ≡ true
    pub routed : resp.remote_peer_cluster ≡ remote_peer_cluster_name source.peer

  module _ (c : Call) (w : World R Client) where
    pub call_peer-ok :
        (r : LoadBalancingResult) (source : ImportSource) (o : Option Client)
        (resp : EgressResponse)
        → call_peer as_selector name_string is_condition_true c w r source o ≡ done (ok resp)
        → (cl : Client) × (o ≡ some cl)
          × (w.authorize cl (authorization_request c source) ≡ ok resp.access_token)
          × (resp.allowed ≡ true)
          × (resp.remote_peer_cluster ≡ remote_peer_cluster_name source.peer)
    unfolding call_peer
    call_peer-ok r source none resp e = absurd (cc)
    call_peer-ok r source (some cl) resp e = (cl, refl, ground arith, ground arith, ground arith)

    pub after_decision-ok :
        (r : LoadBalancingResult) (source : ImportSource) (res : Result String DestinationDecision)
        (resp : EgressResponse)
        → after_decision as_selector name_string is_condition_true c w r source res ≡ done (ok resp)
        → (d : DestinationDecision) × (res ≡ ok d)
          × (d.decision ≡ allow)
          × (call_peer as_selector name_string is_condition_true c w r source
                (lookup source.peer w.peer_client)
              ≡ done (ok resp))
    unfolding after_decision
    after_decision-ok r source (err x) resp e = absurd (cc)
    after_decision-ok r source (ok d) resp e = (d, refl, ground arith, ground arith)

    pub try_peer-ok :
        (r : LoadBalancingResult) (source : ImportSource) (o : Option Peer) (resp : EgressResponse)
        → try_peer as_selector name_string is_condition_true c w r source o ≡ done (ok resp)
        → (pr : Peer) × (o ≡ some pr)
          × (after_decision as_selector name_string is_condition_true c w r source (
                decide as_selector name_string c.src_attributes
                  (dst_attributes c source pr)
                  c.import_name.namespace
                  w.pdp)
              ≡ done (ok resp))
    unfolding try_peer
    try_peer-ok r source none resp e = absurd (cc)
    try_peer-ok r source (some pr) resp e = (pr, refl, ground arith)

    pub attempt-ok :
        (r : LoadBalancingResult) (resp : EgressResponse)
        → attempt as_selector name_string is_condition_true c w r ≡ done (ok resp)
        → (source : ImportSource) × (get r ≡ some source) × Granted c w source resp
    unfolding attempt
    attempt-ok r resp e = elim (Option-cases (get r)) [
      | inl missing ↦ absurd (ground arith)
      | inr (source, found) ↦
          let (pr, known, e1) =
            try_peer-ok r source (w.get_peer (peer_key c source)) resp (ground arith) in
          let (d, decided, allowed, e2) = after_decision-ok r source _ resp e1 in
          let (cl, has, authorized, yes_allowed, routed) = call_peer-ok r source _ resp e2 in
          (
            source,
            found,
            record {
              peer = pr;
              client = cl;
              decision = d;
              peer_known = known;
              decided = decided;
              allowed = allowed;
              has_client = has;
              authorized = authorized;
              response_allowed = yes_allowed;
              routed = routed;
            },
          )
    ]

    pub get_elem?_of_get :
        (r : LoadBalancingResult) (source : ImportSource)
        → get r ≡ some source
        → (i : ℕ) × (get_elem? r.imp.sources i ≡ some source)
    unfolding get
    get_elem?_of_get r source e = elim (Option-cases r.current_index) [
      | inl out ↦ absurd (ground arith)
      | inr (i, at) ↦ (i, ground arith)
    ]

    pub get_of_index :
        (r : LoadBalancingResult)
        → IsIndex (source_count r) r.current_index
        → (source : ImportSource) × (get r ≡ some source)
    unfolding get
    get_of_index r h = elim (Option-cases r.current_index) [
      | inl out ↦ absurd (subst (IsIndex (source_count r)) out h)
      | inr (i, at) ↦
          let (s, e) = get_elem?_lt r.imp.sources i (subst (IsIndex (source_count r)) at h) in
          (s, rw (at, get) e)
    ]

    -- No attempt ends by the panic of an index out of range, or for want of fuel.
    pub attempt_answers :
        (r : LoadBalancingResult) (result : Result EgressError EgressResponse)
        → IsIndex (source_count r) r.current_index
        → attempt as_selector name_string is_condition_true c w r ≡ done result
        → (result ≢ err out_of_fuel) × (result ≢ err nil_source)
    unfolding attempt
    attempt_answers r result h e =
        let (s, found) = get_of_index r h in (λ x. ground arith, λ x. ground arith)
