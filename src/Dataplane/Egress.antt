-- ===== src/Dataplane/Egress.antt =====
-- The egress side of the data plane: getEgressAuth and the body of serveEgressConnections of
-- pkg/dataplane/server/listener.go, and initiateEgressConnection of server.go. Dialling, TLS and HTTP
-- are parameters, and so is the authorization server.
use Prim.Native.String.{◌++◌ as str_append}
use text.Mathlib.TextBridge.{of_list}
use clusterlink.Common.{
  ℕ, String, not, none, some, [], ◌∷◌, Result, ok, err, ◌>>=◌, nat_eq, str_eq, if◌then◌else◌,
}
use clusterlink.Common.Maps.{Map}
use clusterlink.Common.Texts.{chars, split_first}
use clusterlink.Authz.Server.{
  CheckResponse, allowed_response, denied_response, Attributes, internal_address,
  import_name_header, import_namespace_header, client_ip_header, authorization_header,
  target_cluster_header,
}
use clusterlink.Dataplane.{Dataplane, TlsConfig}
use clusterlink.Dataplane.Clusters.{
  ClusterError, get_cluster_host, get_cluster_hostname, get_cluster_target,
}

-- `missing_slash` is the panic at the second component of a name that has one.
pub data EgressError : Type 0 where
  missing_slash missing_target_cluster missing_access_token : EgressError
  authorization_failed : String → EgressError
  egress_denied : String → EgressError
  cannot_find : ClusterError → EgressError
  cannot_connect : String → EgressError
  bad_status : ℕ → EgressError

-- The request that getEgressAuth sends for an import.
abbrev pub egress_check : String → String → String → Attributes
egress_check namespace name source_ip = record {
  source = some (record { address = some internal_address });
  request = some (
      some (record {
        method = "";
        path = "";
        headers =
            (import_namespace_header, namespace)
            ∷ (import_name_header, name)
            ∷ (client_ip_header, source_ip)
            ∷ [];
        body = "";
      }));
}

-- The loop over the headers of the answer, with the cluster and the token found so far.
unfoldable pub find_headers : Map String String → String × String → String × String
find_headers [] found = found
find_headers ((key, value) ∷ rest) (cluster, token) = find_headers rest (
    if str_eq key target_cluster_header
    then (value, token)
    else if str_eq key authorization_header
    then (cluster, value)
    else (cluster, token))

unfoldable pub read_answer : CheckResponse → Result EgressError (String × String)
unfolding find_headers
read_answer (denied_response code http body) = err (egress_denied body)
read_answer (allowed_response headers to_add) =
    let found = find_headers headers ("", "") in
    if str_eq found.0 ""
    then err missing_target_cluster
    else if str_eq found.1 ""
    then err missing_access_token
    else ok found

-- `check` is the call of the authorization server, with the error of the call as a text.
unfoldable pub get_egress_auth :
    (Attributes → Result String CheckResponse)
    → String
    → String
    → Result EgressError (String × String)
unfolding split_first read_answer
get_egress_auth check name source_ip = elim (split_first "/" (chars name)) [
  | none ↦ err missing_slash
  | some (namespace, import_name) ↦
      elim (check (egress_check (of_list namespace) (of_list import_name) source_ip)) [
        | err e ↦ err (authorization_failed e)
        | ok resp ↦ read_answer resp
      ]
]

-- A TLS configuration for one peer.
pub record PeerTls (Certificate Pool : Type 0) : Type 0 where
  pub config : TlsConfig Certificate Pool
  pub server_name : String

-- `tls.Dial` with its target, and the status of the CONNECT request with its URL and token.
pub record Network (Certificate Pool Conn : Type 0) : Type 0 where
  pub split_host_port : String → Result String (String × String)
  pub dial_tls : String → PeerTls Certificate Pool → Result String Conn
  pub connect : Conn → String → String → Result String ℕ

module _ {Certificate Pool Conn : Type 0} (net : Network Certificate Pool Conn) where
  abbrev pub from_cluster : {A : Type 0} → Result ClusterError A → Result EgressError A
  from_cluster (ok a) = ok a
  from_cluster (err e) = err (cannot_find e)

  abbrev pub check_status : Conn → ℕ → Result EgressError Conn
  check_status conn status = if not (nat_eq status 200) then err (bad_status status) else ok conn

  abbrev pub from_network : {A : Type 0} → Result String A → Result EgressError A
  from_network (ok a) = ok a
  from_network (err e) = err (cannot_connect e)

  -- Up to the forwarder, which gets the connection to the peer.
  unfoldable pub initiate_egress_connection :
      String
      → String
      → PeerTls Certificate Pool
      → Dataplane Certificate Pool
      → Result EgressError Conn
  initiate_egress_connection cluster token tls d =
      from_cluster (get_cluster_target cluster d) >>= λ target.
      from_cluster (get_cluster_hostname cluster d) >>= λ hostname.
      from_network (net.dial_tls target tls) >>= λ conn.
      from_network (net.connect conn (str_append "https://" hostname) token) >>= λ status.
      check_status conn status

  -- One connection that a listener accepted: an error closes it.
  unfoldable pub serve_egress_connection :
      (Attributes → Result String CheckResponse)
      → String
      → String
      → Dataplane Certificate Pool
      → Result EgressError Conn
  unfolding get_egress_auth initiate_egress_connection
  serve_egress_connection check name source_ip d = get_egress_auth check name source_ip >>= λ auth.
      from_cluster (get_cluster_host net.split_host_port auth.0 d) >>= λ host.
      initiate_egress_connection auth.0 auth.1 (record { config = d.tls; server_name = host }) d
