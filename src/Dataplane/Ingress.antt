-- ===== src/Dataplane/Ingress.antt =====
-- The ingress side of the data plane: dataplaneIngressAuthorize and routeIngress of
-- pkg/dataplane/server/server.go.
use clusterlink.Common.{
  ℕ, String, not, Option, none, some, List, [], ◌∷◌, Result, ok, err, str_eq, if◌then◌else◌,
  string_eq,
}
use clusterlink.Common.Maps.{Map, lookup}
use clusterlink.Authz.Server.{
  CheckResponse, allowed_response, denied_response, HttpRequest, authorization_header,
  target_cluster_header,
}
use clusterlink.Dataplane.{Dataplane}
use clusterlink.Dataplane.Clusters.{ClusterError, get_cluster_target}

-- What the HTTP server hands over. `dns_names` are the DNS names of the certificates of the TLS
-- connection, if it is one; `body` is what is read, or the error.
pub record IncomingRequest : Type 0 where
  pub dns_names : Option (List (List String))
  pub method : String
  pub path : String
  pub headers : Map String String
  pub body : Result String String

-- `hijacked` is a connection that is forwarded to another; `replied` has the headers and the status.
pub data IngressEnd (Conn : Type 0) : Type 0 where
  replied : Map String String → ℕ → IngressEnd Conn
  failed : String → ℕ → IngressEnd Conn
  bad_cluster : ClusterError → IngressEnd Conn
  forwarded : Conn → Conn → IngressEnd Conn

-- `r.Header.Get`, with the empty text for a missing header.
abbrev pub header_of : String → Map String String → String
header_of key headers = elim (lookup key headers) [ none ↦ "" | some value ↦ value ]

-- The headers that are passed on.
abbrev pub allowed_headers : Map String String → Map String String
allowed_headers headers =
    let value = header_of authorization_header headers in
    if not (str_eq value "") then (authorization_header, value) ∷ [] else []

-- The first DNS name of the first certificate.
abbrev pub principal_of : Option (List (List String)) → Option String
principal_of none = none
principal_of (some []) = none
principal_of (some ([] ∷ rest)) = none
principal_of (some ((name ∷ names) ∷ rest)) = some name

-- The dialler and the hijacking of the HTTP connection, with their errors, and the call of the
-- authorization server with the peer's name.
pub record IngressNetwork (Conn : Type 0) : Type 0 where
  pub dial : String → Result String Conn
  pub hijack : Result String Conn
  pub check : String → HttpRequest → Result String CheckResponse

-- The loop that looks for the cluster of the export; where it finds none the name is empty.
unfoldable pub target_cluster : Map String String → String
target_cluster [] = ""
target_cluster ((key, value) ∷ rest) =
    let others = target_cluster rest in if str_eq key target_cluster_header then value else others

module _ {Certificate Pool Conn : Type 0} (net : IngressNetwork Conn)
    (d : Dataplane Certificate Pool) where
  unfoldable pub connect_service : Result ClusterError String → IngressEnd Conn
  connect_service (err e) = bad_cluster e
  connect_service (ok target) = elim (net.dial target) [
    | err e ↦ failed e 500
    | ok app ↦ elim net.hijack [
      | err e ↦ failed "hijacking failed" 500
      | ok peer ↦ forwarded app peer
    ]
  ]

  unfoldable pub route_ingress : String → Map String String → Map String String → IngressEnd Conn
  unfolding connect_service
  route_ingress method headers to_add =
      if not (str_eq method "CONNECT")
      then replied to_add 200
      else connect_service (get_cluster_target (target_cluster headers) d)

  unfoldable pub answer_ingress : String → Result String CheckResponse → IngressEnd Conn
  unfolding route_ingress
  answer_ingress method (err e) = failed e 500
  answer_ingress method (ok (allowed_response headers to_add)) = route_ingress method headers to_add
  answer_ingress method (ok (denied_response code http body)) = failed body 403

  unfoldable pub dataplane_ingress_authorize : IncomingRequest → IngressEnd Conn
  unfolding answer_ingress
  dataplane_ingress_authorize r = elim (principal_of r.dns_names) [
    | none ↦ failed "certificate does not contain a valid DNS name for the peer gateway" 400
    | some principal ↦ elim r.body [
      | err e ↦ failed e 500
      | ok body ↦ answer_ingress r.method (
          net.check principal (record {
            method = r.method;
            path = r.path;
            headers = allowed_headers r.headers;
            body = body;
          }))
    ]
  ]
