-- ===== src/Monitor.antt =====
-- pkg/controlplane/control/peer.go: the monitor of one peer, whose loop is one round after each
-- heartbeat, and when a peer counts as changed.
pub mod Rounds
pub mod Changes
pub mod Table
use clusterlink.Common.{
  ℕ, suc, ◌+◌, String, Bool, true, false, not, ◌&&◌, ◌||◌, Option, none, some, List, [], ◌∷◌,
  Result, ok, err, nat_eq, ltb, if◌then◌else◌, str_eq, length, string_eq,
}
use clusterlink.Common.Maps.{Map, lookup}
use clusterlink.Crds.Peers.{Peer, Endpoint, Condition, peer_reachable}

abbrev pub healthy_interval : ℕ
healthy_interval = 1

abbrev pub unhealthy_interval : ℕ
unhealthy_interval = 10

abbrev pub healthy_threshold : ℕ
healthy_threshold = 3

abbrev pub unhealthy_threshold : ℕ
unhealthy_threshold = 5

-- The fields and the local variables of `Start`; `interval` is the ticker's, in seconds.
pub record PeerMonitor : Type 0 where
  pub pr : Peer
  pub healthy : Bool
  pub strike_count : ℕ
  pub threshold : ℕ
  pub interval : ℕ

-- What `GetHeartbeat` returned: the peer's labels, or an error and no labels.
abbrev pub Heartbeat : Type 0
Heartbeat = Result String (Map String String)

abbrev pub is_ok : Heartbeat → Bool
is_ok (ok labels) = true
is_ok (err e) = false

abbrev pub labels_of : Heartbeat → Map String String
labels_of (ok labels) = labels
labels_of (err e) = []

abbrev pub same_bool : Bool → Bool → Bool
same_bool true b = b
same_bool false b = not b

-- `meta.SetStatusCondition` and `meta.IsStatusConditionTrue` are parameters.
unfoldable pub start : (List Condition → String → Bool) → Peer → PeerMonitor
start is_condition_true pr = record {
  pr = pr;
  healthy = is_condition_true pr.conditions peer_reachable;
  strike_count = 0;
  threshold = 1;
  interval = healthy_interval;
}

abbrev pub reachable_cond : Bool → Condition
reachable_cond reachable = record {
  kind = peer_reachable;
  status = if reachable then "True" else "False";
  reason = "Heartbeat";
  message = "";
  observed_generation = 0;
  last_transition_time = "";
}

-- The count of strikes and the ticker after a heartbeat.
unfoldable pub strike : Bool → PeerMonitor → PeerMonitor
strike heartbeat_ok m =
    if same_bool m.healthy heartbeat_ok
    then record m {
      strike_count = 0;
      interval = if not m.healthy then unhealthy_interval else m.interval;
    }
    else record m {
      strike_count = m.strike_count + 1;
      interval = if heartbeat_ok then healthy_interval else m.interval;
    }

module _ (set_status_condition : List Condition → Condition → List Condition) where
  unfoldable pub declare_status : Heartbeat → PeerMonitor → PeerMonitor
  declare_status r m = record {
    pr = record m.pr {
      conditions = set_status_condition m.pr.conditions (reachable_cond (is_ok r));
      labels = labels_of r;
    };
    healthy = is_ok r;
    strike_count = 0;
    threshold = if is_ok r then unhealthy_threshold else healthy_threshold;
    interval = if is_ok r then m.interval else unhealthy_interval;
  }

  -- One round of the loop, with the peer that it gives to `statusCallback`, if any.
  unfoldable pub round : Heartbeat → PeerMonitor → PeerMonitor × Option Peer
  unfolding strike declare_status
  round r m =
      let struck = strike (is_ok r) m in
      if ltb struck.strike_count struck.threshold
      then (struck, none)
      else (let m' = declare_status r struck in (m', some m'.pr))

  -- The rounds for a list of heartbeats, the newest first.
  unfoldable pub rounds : List Heartbeat → PeerMonitor → PeerMonitor
  unfolding round
  rounds [] m = m
  rounds (r ∷ older) m = (round r (rounds older m)).0

-- The loops of `peerChanged`, over lists of the same length.
unfoldable pub gateways_differ : List Endpoint → List Endpoint → Bool
gateways_differ [] ys = false
gateways_differ (x ∷ xs) [] = false
gateways_differ (x ∷ xs) (y ∷ ys) =
    let rest = gateways_differ xs ys in
    not (str_eq x.host y.host) || not (nat_eq x.port y.port) || rest

abbrev pub same_condition : Condition → Condition → Bool
same_condition a b =
    str_eq a.kind b.kind
    && str_eq a.status b.status
    && str_eq a.reason b.reason
    && str_eq a.message b.message
    && nat_eq a.observed_generation b.observed_generation
    && str_eq a.last_transition_time b.last_transition_time

unfoldable pub conditions_differ : List Condition → List Condition → Bool
conditions_differ [] ys = false
conditions_differ (x ∷ xs) [] = false
conditions_differ (x ∷ xs) (y ∷ ys) =
    let rest = conditions_differ xs ys in not (same_condition x y) || rest

-- A missing key reads as the empty text.
abbrev pub label_of : String → Map String String → String
label_of key labels = elim (lookup key labels) [ none ↦ "" | some val ↦ val ]

unfoldable pub labels_differ : Map String String → Map String String → Bool
labels_differ [] labels = false
labels_differ ((key, val) ∷ rest) labels =
    let others = labels_differ rest labels in not (str_eq val (label_of key labels)) || others

unfoldable pub peer_changed : Peer → Peer → Bool
unfolding gateways_differ conditions_differ labels_differ
peer_changed a b =
    not (nat_eq (length a.gateways) (length b.gateways))
    || gateways_differ a.gateways b.gateways
    || not (nat_eq (length a.conditions) (length b.conditions))
    || conditions_differ a.conditions b.conditions
    || not (nat_eq (length a.labels) (length b.labels))
    || labels_differ a.labels b.labels
