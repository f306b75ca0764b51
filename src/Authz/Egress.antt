-- ===== src/Authz/Egress.antt =====
-- `authorizeEgress` of pkg/controlplane/authz/manager.go. What other goroutines, the API server
-- and the remote peers may change between two attempts is a `World` for each attempt.
pub mod Loop
pub mod Steps
pub mod Turns
pub mod Sound
pub mod Failover
use Prim.Native.String.{◌++◌ as str_append}
use clusterlink.Common.{
  ℕ, zero, suc, ◌+◌, ◌*◌, String, Bool, true, false, not, ◌&&◌, Option, none, some, List, [], ◌∷◌,
  Result, ok, err, str_eq, nat_eq, length, if◌then◌else◌, string_eq,
}
use clusterlink.Common.Maps.{Map, lookup}
use clusterlink.Crds.Names.{NamespacedName}
use clusterlink.Crds.Policies.{AsSelector}
use clusterlink.Crds.Imports.{Import, ImportSource}
use clusterlink.Crds.Peers.{Peer, Condition, peer_reachable}
use clusterlink.Pdp.Matching.{WorkloadAttrs, Decision, undecided, allow, deny}
use clusterlink.Pdp.Tiers.{Pdp, DestinationDecision, decide, depends_on_client_attrs}
use clusterlink.Balancer.Select.{
  LoadBalancer, LoadBalancingResult, SelectError, get, is_delayed, delay, new_load_balancing_result,
  select,
}
use clusterlink.Authz.Attributes.{get_src_attributes, get_dst_attributes}
use clusterlink.Authz.Pods.{PodTable}

-- `egressAuthorizationRequest` and `egressAuthorizationResponse`.
pub record EgressRequest : Type 0 where
  pub import_name : NamespacedName
  pub ip : String

pub record EgressResponse : Type 0 where
  pub allowed : Bool
  pub remote_peer_cluster : String
  pub access_token : String

-- `AuthorizationRequest` of pkg/controlplane/api/authz.go.
pub record AuthorizationRequest : Type 0 where
  pub service_name : String
  pub service_namespace : String
  pub src_attributes : WorkloadAttrs

-- `nil_source` stands for the panic at a source that `Get` did not find, `out_of_fuel` for a
-- model that was given too few rounds.
pub data EgressError : Type 0 where
  no_client_attributes cannot_get_import nil_source out_of_fuel : EgressError
  cannot_select : SelectError → EgressError
  cannot_get_peer missing_client : String → EgressError
  cannot_decide : String → EgressError

-- `Client` is a client of a remote peer; `draw` is the result of `rand.Intn` if it is called.
pub record World (R Client : Type 0) : Type 0 where
  pub draw : ℕ
  pub pdp : Pdp R
  pub peer_client : Map String Client
  pub get_peer : NamespacedName → Option Peer
  pub authorize : Client → AuthorizationRequest → Result String String

-- `meta.IsStatusConditionTrue`.
abbrev pub IsConditionTrue : Type 0
IsConditionTrue = List Condition → String → Bool

pub data Outcome : Type 0 where
  again : LoadBalancingResult → Outcome
  done : Result EgressError EgressResponse → Outcome

abbrev pub remote_peer_cluster_prefix : String
remote_peer_cluster_prefix = "remote-peer-"

unfoldable pub remote_peer_cluster_name : String → String
remote_peer_cluster_name name = str_append remote_peer_cluster_prefix name

abbrev or_default : String → String → String
or_default given other = if str_eq given "" then other else given

-- What the loop does not change: `m.namespace`, the import, and the request with the source
-- attributes found for it.
pub record Call : Type 0 where
  pub namespace : String
  pub imp : Import
  pub import_name : NamespacedName
  pub src_attributes : WorkloadAttrs

abbrev pub authorization_request : Call → ImportSource → AuthorizationRequest
authorization_request c source = record {
  service_name = or_default source.export_name c.import_name.name;
  service_namespace = or_default source.export_namespace c.import_name.namespace;
  src_attributes = c.src_attributes;
}

abbrev pub dst_attributes : Call → ImportSource → Peer → WorkloadAttrs
dst_attributes c source pr =
    get_dst_attributes source.export_name source.export_namespace source.peer c.imp.labels pr.labels

abbrev pub peer_key : Call → ImportSource → NamespacedName
peer_key c source = record { namespace = c.namespace; name = source.peer }

module _ {R Client : Type 0} (as_selector : AsSelector R) (name_string : NamespacedName → String)
    (is_condition_true : IsConditionTrue) (c : Call) where
  -- After the decision: the call to the remote peer.
  unfoldable pub call_peer :
      World R Client → LoadBalancingResult → ImportSource → Option Client → Outcome
  call_peer w r source none = done (err (missing_client source.peer))
  call_peer w r source (some cl) = elim (w.authorize cl (authorization_request c source)) [
    | err e ↦ again r
    | ok token ↦ done (
        ok (record {
          allowed = true;
          remote_peer_cluster = remote_peer_cluster_name source.peer;
          access_token = token;
        }))
  ]

  unfoldable pub after_decision :
      World R Client
      → LoadBalancingResult
      → ImportSource
      → Result String DestinationDecision
      → Outcome
  unfolding call_peer
  after_decision w r source (err e) = done (err (cannot_decide e))
  after_decision w r source (ok d) = elim d.decision [
    | allow ↦ call_peer w r source (lookup source.peer w.peer_client)
    | undecided ↦ again r
    | deny ↦ again r
  ]

  unfoldable pub try_peer :
      World R Client → LoadBalancingResult → ImportSource → Option Peer → Outcome
  unfolding after_decision
  try_peer w r source none = done (err (cannot_get_peer source.peer))
  try_peer w r source (some pr) =
      if not (is_condition_true pr.conditions peer_reachable) && not (is_delayed r)
      then again (delay r)
      else after_decision w r source (
          decide as_selector name_string c.src_attributes (dst_attributes c source pr)
            c.import_name.namespace w.pdp)

  -- The loop's body, after `Select`.
  unfoldable pub attempt : World R Client → LoadBalancingResult → Outcome
  unfolding try_peer
  attempt w r = elim (get r) [
    | none ↦ done (err nil_source)
    | some source ↦ try_peer w r source (w.get_peer (peer_key c source))
  ]

  unfoldable pub egress_loop :
      (ℕ → World R Client)
      → ℕ
      → ℕ
      → LoadBalancer
      → LoadBalancingResult
      → LoadBalancer × Result EgressError EgressResponse
  egress_loop world zero n lb r = (lb, err out_of_fuel)
  egress_loop world (suc fuel) n lb r =
      let (lb', r', failure) = select (world n).draw lb r in
      elim failure [
        | some e ↦ (lb', err (cannot_select e))
        | none ↦ elim (attempt (world n) r') [
          | done result ↦ (lb', result)
          | again r'' ↦ egress_loop world fuel (n + 1) lb' r''
        ]
      ]

-- The manager's own fields that the method reads.
pub record Self : Type 0 where
  pub namespace : String
  pub peer_name : String
  pub peer_labels : Map String String
  pub pods : PodTable

module _ {R Client : Type 0} (as_selector : AsSelector R) (name_string : NamespacedName → String)
    (is_condition_true : IsConditionTrue) where
  -- `world 0` is what the guard before the loop and the first attempt see.
  unfoldable pub authorize_egress :
      Self
      → (NamespacedName → Option Import)
      → (ℕ → World R Client)
      → LoadBalancer
      → EgressRequest
      → LoadBalancer × Result EgressError EgressResponse
  unfolding egress_loop
  authorize_egress m get_import world lb req =
      let src = get_src_attributes m.peer_name m.peer_labels m.pods req.ip in
      if nat_eq (length src) 0 && depends_on_client_attrs (world 0).pdp
      then (lb, err no_client_attributes)
      else elim (get_import req.import_name) [
        | none ↦ (lb, err cannot_get_import)
        | some imp ↦
            egress_loop as_selector name_string is_condition_true
              (record {
                namespace = m.namespace;
                imp = imp;
                import_name = req.import_name;
                src_attributes = src;
              })
              world (2 * length imp.sources + 1) 0 lb (new_load_balancing_result imp)
      ]
