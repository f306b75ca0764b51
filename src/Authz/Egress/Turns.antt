-- ===== src/Authz/Egress/Turns.antt =====
-- Sources that would answer or serve a request, and the turn that each of them has.
use clusterlink.Common.{
  ℕ, ◌<◌, ◌≡◌, ◌≢◌, refl, subst, ◌⊎◌, inl, inr, String, false, none, some, List, [], ◌∷◌, ◌++◌,
  Result, ok, err, arith, Any, Option-cases, nat_eq_iff, ℕ_eq, string_eq,
}
use clusterlink.Common.Maps.{lookup, lookup-insert}
use clusterlink.Common.Pigeonhole.{full_has}
use clusterlink.Crds.Names.{NamespacedName}
use clusterlink.Crds.Policies.{AsSelector}
use clusterlink.Crds.Imports.{ImportSource}
use clusterlink.Crds.Peers.{Peer}
use clusterlink.Pdp.Matching.{allow}
use clusterlink.Pdp.Tiers.{DestinationDecision, decide}
use clusterlink.Balancer.Select.{LoadBalancingResult, source_count, get, is_delayed, delay}
use clusterlink.Balancer.Progress.{IsProper, tried, tried-IsDistinct, tried-Below, next}
use clusterlink.Authz.Egress.{
  World, Call, IsConditionTrue, again, done, EgressError, EgressResponse, attempt,
  authorization_request, dst_attributes, peer_key,
}
use clusterlink.Authz.Egress.Loop.{IsExhausted}

-- In this attempt the source causes no error that ends the request: its peer is known, the
-- decision can be made, and there is a client for its peer if the connection is allowed.
pub record Answerable {R Client : Type 0} (as_selector : AsSelector R)
    (name_string : NamespacedName → String) (c : Call) (w : World R Client) (source : ImportSource)
    : Type 0 where
  pub peer : Peer
  pub decision : DestinationDecision
  pub peer_known : w.get_peer (peer_key c source) ≡ some peer
  pub decided :
      decide as_selector name_string c.src_attributes
        (dst_attributes c source peer)
        c.import_name.namespace
        w.pdp
      ≡ ok decision
  pub has_client :
      decision.decision ≡ allow → (cl : Client) × (lookup source.peer w.peer_client ≡ some cl)

-- In this attempt the connection is allowed and the remote peer would give a token.
pub record Serves {R Client : Type 0} (as_selector : AsSelector R)
    (name_string : NamespacedName → String) (c : Call) (w : World R Client) (source : ImportSource)
    : Type 0 where
  pub peer : Peer
  pub decision : DestinationDecision
  pub client : Client
  pub token : String
  pub peer_known : w.get_peer (peer_key c source) ≡ some peer
  pub decided :
      decide as_selector name_string c.src_attributes
        (dst_attributes c source peer)
        c.import_name.namespace
        w.pdp
      ≡ ok decision
  pub allowed : decision.decision ≡ allow
  pub has_client : lookup source.peer w.peer_client ≡ some client
  pub authorized : w.authorize client (authorization_request c source) ≡ ok token

module _ {R Client : Type 0} (as_selector : AsSelector R) (name_string : NamespacedName → String)
    (is_condition_true : IsConditionTrue) (c : Call) (w : World R Client) (r : LoadBalancingResult)
    (source : ImportSource) (found : get r ≡ some source) where
  missing_client_absurd :
      (cl : Client) × (lookup source.peer w.peer_client ≡ some cl)
      → lookup source.peer w.peer_client ≡ none
      → ⊥
  missing_client_absurd (cl, has) missing = cc

  -- An attempt at an answerable source ends by a response, if it ends the loop at all.
  pub finished_turn :
      (result : Result EgressError EgressResponse)
      → Answerable as_selector name_string c w source
      → attempt as_selector name_string is_condition_true c w r ≡ done result
      → (resp : EgressResponse) × (result ≡ ok resp)
  unfolding attempt
  finished_turn (ok resp) a e = (resp, refl)
  finished_turn (err x) a e = elim (Option-cases (lookup source.peer w.peer_client)) [
    | inl missing ↦
        let denied : a.decision.decision ≢ allow =
          λ al. missing_client_absurd (a.has_client al) missing in
        absurd (ground arith)
    | inr (cl, has) ↦ absurd (ground arith)
  ]

  -- An attempt at a serving source goes on only to delay it.
  pub serving_again :
      (r'' : LoadBalancingResult)
      → Serves as_selector name_string c w source
      → attempt as_selector name_string is_condition_true c w r ≡ again r''
      → (r'' ≡ delay r) × (is_delayed r ≡ false)
  unfolding attempt
  serving_again r'' s e =
      ground (arith, s.peer_known, s.decided, s.allowed, s.has_client, s.authorized)

Any-left {ℓ} : {A : Type ℓ} (P : A → Type 0) (xs ys : List A) → Any P xs → Any P (xs ++ ys)
Any-left P [] ys h = absurd h
Any-left P (x ∷ xs) ys (inl p) = inl p
Any-left P (x ∷ xs) ys (inr h) = inr (Any-left P xs ys h)

Any-last {ℓ} : {A : Type ℓ} (P : A → Type 0) (xs : List A) (x : A) → P x → Any P (xs ++ x ∷ [])
Any-last P [] x p = inl p
Any-last P (y ∷ xs) x p = inr (Any-last P xs x p)

-- The source at `g` still has its turn: it was not tried, or it is delayed.
abbrev pub Waits : ℕ → LoadBalancingResult → Type 0
Waits g r = (lookup g (tried r) ≡ none) ⊎ Any (λ o. o ≡ some g) r.delayed

pub Waits-delay : (g : ℕ) (r : LoadBalancingResult) → Waits g r → Waits g (delay r)
unfolding delay
Waits-delay g r (inl out) = inl out
Waits-delay g r (inr h) = inr (Any-left _ r.delayed (r.current_index ∷ []) h)

pub Waits-delayed : (g : ℕ) (r : LoadBalancingResult) → r.current_index ≡ some g → Waits g (delay r)
unfolding delay
Waits-delayed g r at = inr (Any-last _ r.delayed r.current_index at)

-- A choice other than `g` leaves `g` its turn.
pub Waits-new : (g i : ℕ) (r : LoadBalancingResult) → i ≢ g → Waits g r → Waits g (next r i)
Waits-new g i r ne (inl out) = inl (rw lookup-insert (ground (arith, nat_eq_iff i g)))
Waits-new g i r ne (inr h) = inr h

pub not_exhausted :
    (g : ℕ) (r : LoadBalancingResult)
    → IsProper r
    → g < source_count r
    → Waits g r
    → IsExhausted r
    → ⊥
not_exhausted g r v lt (inl out) (full, empty) =
    let (x, has) =
      full_has (source_count r) g (tried r) (tried-IsDistinct r v) (tried-Below r v) full lt in
    cc
not_exhausted g r v lt (inr h) (full, empty) = subst (Any (λ o. o ≡ some g)) empty h
