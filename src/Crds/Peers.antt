-- ===== src/Crds/Peers.antt =====
-- pkg/apis/clusterlink.net/v1alpha1/peer.go and export.go, and the status conditions of Kubernetes.
use clusterlink.Common.{ℕ, String, List}
use clusterlink.Common.Maps.{Map}
use clusterlink.Crds.Names.{NamespacedName}

-- `metav1.Condition`; a time is opaque, and empty where it is not set.
pub record Condition : Type 0 where
  pub kind : String
  pub status : String
  pub reason : String
  pub message : String
  pub observed_generation : ℕ
  pub last_transition_time : String

pub record Endpoint : Type 0 where
  pub host : String
  pub port : ℕ

pub record Peer : Type 0 where
  pub name : String
  pub gateways : List Endpoint
  pub conditions : List Condition
  pub labels : Map String String

abbrev pub peer_reachable : String
peer_reachable = "PeerReachable"

pub record Export : Type 0 where
  pub object : NamespacedName
  pub labels : Map String String
  pub host : String
  pub port : ℕ
  pub conditions : List Condition

abbrev pub export_valid : String
export_valid = "ExportValid"
