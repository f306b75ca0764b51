-- ===== src/Dataplane.antt =====
-- The Go data plane, pkg/dataplane/server/dataplane.go: the tables that it keeps. The callers hold a
-- lock around the table of clusters and that of listeners.
pub mod Clusters
pub mod Listeners
pub mod Secrets
pub mod Egress
pub mod Ingress
pub mod Forwarder
pub mod Snapshots
pub mod Fetcher
pub mod Routes
pub mod Granted
pub mod Ends
pub mod Certificates
use Prim.Native.String.{◌++◌ as str_append}
use text.Mathlib.Text.{starts_with}
use text.Mathlib.TextBridge.{of_list}
use clusterlink.Common.{ℕ, String, Bool, Option, none, some, List, [], if◌then◌else◌}
use clusterlink.Common.Maps.{Map}
use clusterlink.Control.Names.{print_decimal}
use clusterlink.Authz.Server.{trim_prefix}
use clusterlink.Xds.{Cluster, Listener, SocketAddress}

-- `tls.Config`, with what the data plane sets: the certificate, and the pool of authorities for clients
-- and for servers.
pub record TlsConfig (Certificate Pool : Type 0) : Type 0 where
  pub certificates : Option Certificate
  pub client_cas : Option Pool
  pub root_cas : Option Pool

-- The channel that ends a listener: whether a goroutine is left that receives from it.
pub data ListenerEnd : Type 0 where
  heard unheard : ListenerEnd

-- `starting` holds the goroutines that AddListener started and that did not run yet.
pub record Dataplane (Certificate Pool : Type 0) : Type 0 where
  pub clusters : Map String Cluster
  pub listeners : Map String Listener
  pub listener_end : Map String ListenerEnd
  pub starting : List (String × SocketAddress)
  pub tls : TlsConfig Certificate Pool

unfoldable pub new_dataplane : (Certificate Pool : Type 0) → Dataplane Certificate Pool
new_dataplane Certificate Pool = record {
  clusters = [];
  listeners = [];
  listener_end = [];
  starting = [];
  tls = record { certificates = none; client_cas = none; root_cas = none };
}

-- An address and a port, with a colon.
abbrev pub host_port : SocketAddress → String
host_port a = str_append a.address (str_append ":" (of_list (print_decimal a.port_value)))

-- `strings.TrimPrefix`
abbrev pub trimmed : String → String → String
trimmed text prefix = if starts_with text prefix then trim_prefix text prefix else text
