-- ===== src/Xds.antt =====
-- The xDS manager, pkg/controlplane/xds/manager.go: what the control plane tells the data plane about
-- peers, exports, imports and certificates. The messages have the fields that the code sets.
pub mod Names
pub mod Served
use Prim.Native.String.{◌++◌ as str_append}
use clusterlink.Common.{
  ℕ, String, Bool, true, false, not, Option, none, some, List, [], ◌∷◌, map, str_eq, if◌then◌else◌,
}
use clusterlink.Crds.Names.{NamespacedName}
use clusterlink.Crds.Peers.{Condition, Endpoint, Peer, Export}
use clusterlink.Crds.Imports.{Import, import_target_port_valid}
use clusterlink.Authz.Egress.{IsConditionTrue, remote_peer_cluster_name}
use clusterlink.Authz.Ingress.{export_cluster_name}
use clusterlink.Authz.Server.{import_name_header, import_namespace_header, client_ip_header}

pub record SocketAddress : Type 0 where
  pub address : String
  pub port_value : ℕ

pub record LbEndpoint : Type 0 where
  pub address : SocketAddress
  pub hostname : String

-- `SdsSecretConfig`: a secret's name, fetched over the same stream within a second.
pub record SdsSecretConfig : Type 0 where
  pub name : String
  pub initial_fetch_timeout : ℕ

pub record UpstreamTlsContext : Type 0 where
  pub sni : String
  pub certificate : SdsSecretConfig
  pub validation : SdsSecretConfig

-- `cluster.Cluster`; the times are in seconds.
pub record Cluster : Type 0 where
  pub name : String
  pub connect_timeout : ℕ
  pub dns_refresh_rate : ℕ
  pub discovery_type : String
  pub dns_resolver : String
  pub assigned_name : String
  pub endpoints : List LbEndpoint
  pub transport : Option UpstreamTlsContext

pub record HeaderToAdd : Type 0 where
  pub key : String
  pub value : String
  pub keep_empty_value : Bool

pub record TcpProxy : Type 0 where
  pub stat_prefix : String
  pub cluster : String
  pub tunnel_hostname : String
  pub headers_to_add : List HeaderToAdd

pub record Listener : Type 0 where
  pub name : String
  pub address : SocketAddress
  pub filter : TcpProxy

pub data SecretContent : Type 0 where
  tls_certificate : Option (Option String) → Option (Option String) → SecretContent
  validation_context : Option (Option String) → SecretContent
  other_content : SecretContent

-- `tls.Secret`: the chain and the key, or the trusted authority, as data sources with inline bytes.
pub record TlsSecret : Type 0 where
  pub name : String
  pub content : SecretContent

-- `RawCertData`
pub record RawCertData : Type 0 where
  pub certificate : String
  pub key : String
  pub ca : String

-- A `LinearCache` for one kind of resources, on the state of all caches.
pub record LinearCache (S R : Type 0) : Type 0 where
  pub update_resource : String → R → S → S × Option String
  pub delete_resource : String → S → S × Option String

-- What the manager calls: the caches, and `anypb.New`, with its error if there is one.
pub record Caches (S : Type 0) : Type 0 where
  pub clusters : LinearCache S Cluster
  pub listeners : LinearCache S Listener
  pub secrets : LinearCache S TlsSecret
  pub resolver_error : Option String
  pub tls_error : UpstreamTlsContext → Option String
  pub proxy_error : TcpProxy → Option String

abbrev pub certificate_secret : String
certificate_secret = "certificate"

abbrev pub validation_secret : String
validation_secret = "validation"

abbrev pub egress_router_cluster : String
egress_router_cluster = "egress-router"

abbrev pub import_listener_prefix : String
import_listener_prefix = "import-"

unfoldable pub import_listener_name : String → String → String
import_listener_name name namespace =
    str_append import_listener_prefix (str_append namespace (str_append "/" name))

abbrev pub lb_endpoint : String → Endpoint → LbEndpoint
lb_endpoint hostname ep = record {
  address = record { address = ep.host; port_value = ep.port };
  hostname = hostname;
}

abbrev pub endpoints_cluster : String → List Endpoint → String → Cluster
endpoints_cluster name endpoints hostname = record {
  name = name;
  connect_timeout = 1;
  dns_refresh_rate = 1;
  discovery_type = "STRICT_DNS";
  dns_resolver = "envoy.network.dns_resolver.getaddrinfo";
  assigned_name = name;
  endpoints = map (lb_endpoint hostname) endpoints;
  transport = none;
}

abbrev pub secret_config : String → SdsSecretConfig
secret_config name = record { name = name; initial_fetch_timeout = 1 }

abbrev pub tls_context : Peer → UpstreamTlsContext
tls_context peer = record {
  sni = peer.name;
  certificate = secret_config certificate_secret;
  validation = secret_config validation_secret;
}

-- The cluster of a peer, with its TLS settings.
abbrev pub peer_cluster : Peer → Cluster
peer_cluster peer =
    record (endpoints_cluster (remote_peer_cluster_name peer.name) peer.gateways
      (str_append peer.name ":443")) { transport = some (tls_context peer) }

abbrev pub export_host : Export → String
export_host export =
    if str_eq export.host ""
    then str_append export.object.name
        (str_append "." (str_append export.object.namespace ".svc.cluster.local"))
    else export.host

abbrev pub export_cluster : Export → Cluster
export_cluster export =
    endpoints_cluster (export_cluster_name export.object.name export.object.namespace)
      (record { host = export_host export; port = export.port } ∷ []) ""

abbrev pub kept_header : String → String → HeaderToAdd
kept_header key value = record { key = key; value = value; keep_empty_value = true }

abbrev pub tcp_proxy : Import → TcpProxy
tcp_proxy imp = record {
  stat_prefix = str_append "tcp-proxy-" imp.object.name;
  cluster = egress_router_cluster;
  tunnel_hostname = "egress-router:443";
  headers_to_add =
      kept_header import_name_header imp.object.name
      ∷ kept_header import_namespace_header imp.object.namespace
      ∷ kept_header client_ip_header "%DOWNSTREAM_REMOTE_ADDRESS_WITHOUT_PORT%"
      ∷ [];
}

abbrev pub import_listener : Import → Listener
import_listener imp = record {
  name = import_listener_name imp.object.name imp.object.namespace;
  address = record { address = "0.0.0.0"; port_value = imp.target_port };
  filter = tcp_proxy imp;
}

abbrev pub certificate_of : RawCertData → TlsSecret
certificate_of raw = record {
  name = certificate_secret;
  content = tls_certificate (some (some raw.certificate)) (some (some raw.key));
}

abbrev pub validation_of : RawCertData → TlsSecret
validation_of raw = record {
  name = validation_secret;
  content = validation_context (some (some raw.ca));
}

module _ {S : Type 0} (w : Caches S) where
  abbrev pub unless : Option String → S → (S → S × Option String) → S × Option String
  unless none s next = next s
  unless (some e) s next = (s, some e)

  unfoldable pub add_peer : Peer → S → S × Option String
  add_peer peer s = unless w.resolver_error s (λ s.
      unless (w.tls_error (tls_context peer)) s
        (w.clusters.update_resource (remote_peer_cluster_name peer.name) (peer_cluster peer)))

  unfoldable pub delete_peer : String → S → S × Option String
  delete_peer name s = w.clusters.delete_resource (remote_peer_cluster_name name) s

  unfoldable pub add_export : Export → S → S × Option String
  add_export export s = unless w.resolver_error s (
      w.clusters.update_resource (export_cluster_name export.object.name export.object.namespace)
        (export_cluster export))

  unfoldable pub delete_export : NamespacedName → S → S × Option String
  delete_export name s = w.clusters.delete_resource (export_cluster_name name.name name.namespace) s

  -- `meta.IsStatusConditionTrue` is a parameter.
  unfoldable pub add_import : IsConditionTrue → Import → S → S × Option String
  add_import is_condition_true imp s =
      if not (is_condition_true imp.conditions import_target_port_valid)
      then (s, none)
      else unless (w.proxy_error (tcp_proxy imp)) s (
          w.listeners.update_resource (import_listener_name imp.object.name imp.object.namespace)
            (import_listener imp))

  unfoldable pub delete_import : NamespacedName → S → S × Option String
  delete_import name s =
      w.listeners.delete_resource (import_listener_name name.name name.namespace) s

  -- After the update of the first secret.
  abbrev pub then_validation : RawCertData → S × Option String → S × Option String
  then_validation raw (s, some e) = (s, some (str_append "error setting certificate secret: " e))
  then_validation raw (s, none) =
      with_text (w.secrets.update_resource validation_secret (validation_of raw) s)
    where
      with_text : S × Option String → S × Option String
      with_text (s, none) = (s, none)
      with_text (s, some e) = (s, some (str_append "error setting validation secret: " e))

  unfoldable pub set_peer_certificates : RawCertData → S → S × Option String
  set_peer_certificates raw s =
      then_validation raw (w.secrets.update_resource certificate_secret (certificate_of raw) s)
