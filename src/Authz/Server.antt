-- ===== src/Authz/Server.antt =====
-- The external authorization server of pkg/controlplane/authz/server.go.
pub mod Bearer
pub mod Answers
use Prim.Native.String.{◌++◌ as str_append, len, slice}
use text.Mathlib.Text.{starts_with}
use clusterlink.Common.{
  ℕ, String, Bool, true, false, not, ◌&&◌, ◌||◌, Option, none, some, List, [], ◌∷◌, Result, ok, err,
  str_eq, if◌then◌else◌, string_eq,
}
use clusterlink.Common.Maps.{Map, lookup}
use clusterlink.Crds.Names.{NamespacedName}
use clusterlink.Authz.Egress.{EgressRequest, EgressResponse, AuthorizationRequest}
use clusterlink.Authz.Ingress.{IngressRequest, IngressResponse}

-- The parts of envoy's `CheckRequest` that the server reads; a pointer is an option.
pub record HttpRequest : Type 0 where
  pub method : String
  pub path : String
  pub headers : Map String String
  pub body : String

-- Whether `GetEnvoyInternalAddress` is not nil.
pub data Address : Type 0 where
  internal_address other_address : Address

pub record Source : Type 0 where
  pub address : Option Address

pub record Attributes : Type 0 where
  pub source : Option Source
  pub request : Option (Option HttpRequest)

pub data RpcCode : Type 0 where
  invalid_argument not_found permission_denied internal : RpcCode

pub data HttpCode : Type 0 where
  bad_request forbidden http_not_found internal_server_error : HttpCode

-- `allowed` with the headers for the request and those to add to the response.
pub data CheckResponse : Type 0 where
  allowed_response : Map String String → Map String String → CheckResponse
  denied_response : RpcCode → HttpCode → String → CheckResponse

abbrev pub build_allowed_response : Map String String → Map String String → CheckResponse
build_allowed_response headers to_add = allowed_response headers to_add

abbrev pub build_denied_response : RpcCode → HttpCode → String → CheckResponse
build_denied_response rpc_code http_code message = denied_response rpc_code http_code message

-- What the server calls: the manager's three methods, with their errors as texts, the decoder of
-- an authorization request, and the encoded labels of this peer.
pub record Authorizer : Type 0 where
  pub authorize_egress : EgressRequest → Result String EgressResponse
  pub authorize_ingress : IngressRequest → Result String IngressResponse
  pub parse_authorization_header : String → Result String String
  pub decode : String → Result String AuthorizationRequest
  pub peer_labels : String

abbrev pub import_name_header : String
import_name_header = "x-import-name"

abbrev pub import_namespace_header : String
import_namespace_header = "x-import-namespace"

abbrev pub client_ip_header : String
client_ip_header = "x-client-ip"

abbrev pub authorization_header : String
authorization_header = "authorization"

abbrev pub target_cluster_header : String
target_cluster_header = "host"

abbrev pub access_token_header : String
access_token_header = "x-access-token"

abbrev pub remote_peer_authorization_path : String
remote_peer_authorization_path = "/authz"

abbrev pub heartbeat_path : String
heartbeat_path = "/healthz"

abbrev pub peer_labels_custom_header : String
peer_labels_custom_header = "ClusterLinkPeerLabels"

abbrev pub bearer_schema_prefix : String
bearer_schema_prefix = "Bearer "

-- `strings.TrimPrefix`, of a text that has the prefix.
abbrev pub trim_prefix : String → String → String
trim_prefix text prefix = slice text (len prefix) (len text)

abbrev pub quoted : String → String → String → String → String
quoted before namespace name after =
    str_append before (str_append namespace (str_append "/" (str_append name after)))

abbrev missing_header : String → CheckResponse
missing_header header =
    build_denied_response invalid_argument bad_request
      (str_append "Missing '" (str_append header "' header."))

module _ (a : Authorizer) where
  -- After the three headers were found.
  unfoldable pub answer_egress : String → String → String → CheckResponse
  answer_egress ip name namespace =
      elim (a.authorize_egress
        (record { import_name = record { namespace = namespace; name = name }; ip = ip })) [
          | err e ↦ build_denied_response internal internal_server_error e
          | ok resp ↦
              if not resp.allowed
              then build_denied_response permission_denied forbidden
                  (quoted "Access denied for '" namespace name "'.")
              else build_allowed_response
                  ((target_cluster_header, resp.remote_peer_cluster)
                    ∷ (authorization_header, str_append bearer_schema_prefix resp.access_token)
                    ∷ [])
                  []
        ]

  -- The loop over the expected headers, in their order.
  unfoldable pub check_egress : HttpRequest → CheckResponse
  unfolding answer_egress
  check_egress req = elim (lookup client_ip_header req.headers) [
    | none ↦ missing_header client_ip_header
    | some ip ↦ elim (lookup import_name_header req.headers) [
      | none ↦ missing_header import_name_header
      | some name ↦ elim (lookup import_namespace_header req.headers) [
        | none ↦ missing_header import_namespace_header
        | some namespace ↦ answer_egress ip name namespace
      ]
    ]
  ]

  unfoldable pub check_service_access_request : HttpRequest → CheckResponse
  check_service_access_request req = elim (lookup authorization_header req.headers) [
    | none ↦ missing_header authorization_header
    | some authorization ↦
        if not (starts_with authorization bearer_schema_prefix)
        then build_denied_response invalid_argument bad_request
            "Authorization header is not using the bearer scheme."
        else elim (a.parse_authorization_header (trim_prefix authorization bearer_schema_prefix)) [
          | err e ↦ build_denied_response permission_denied forbidden e
          | ok cluster ↦ build_allowed_response ((target_cluster_header, cluster) ∷ []) []
        ]
  ]

  unfoldable pub check_authorization_request : HttpRequest → CheckResponse
  check_authorization_request req = elim (a.decode req.body) [
    | err e ↦ build_denied_response invalid_argument bad_request e
    | ok authz ↦
        elim (a.authorize_ingress (record {
          service_name = record { namespace = authz.service_namespace; name = authz.service_name };
          src_attributes = authz.src_attributes;
        })) [
          | err e ↦ build_denied_response internal internal_server_error e
          | ok resp ↦
              if not resp.service_exists
              then build_denied_response not_found http_not_found (
                  quoted "Exported service '" authz.service_namespace authz.service_name
                    "' not found.")
              else if not resp.allowed
              then build_denied_response permission_denied forbidden
                  (quoted "Permission denied for '" authz.service_namespace authz.service_name "'.")
              else build_allowed_response [] ((access_token_header, resp.access_token) ∷ [])
        ]
  ]

  unfoldable pub check_ingress : HttpRequest → CheckResponse
  unfolding check_service_access_request check_authorization_request
  check_ingress req =
      if str_eq req.method "GET" && str_eq req.path heartbeat_path
      then build_allowed_response [] ((peer_labels_custom_header, a.peer_labels) ∷ [])
      else if str_eq req.method "POST" && str_eq req.path remote_peer_authorization_path
      then check_authorization_request req
      else if str_eq req.method "CONNECT"
      then check_service_access_request req
      else build_denied_response invalid_argument bad_request (
          str_append "No handler defined for "
            (str_append req.method (str_append " " (str_append req.path "."))))

  abbrev check_source : Source → HttpRequest → CheckResponse
  check_source source req = elim source.address [
    | none ↦ check_ingress req
    | some address ↦ elim address [
      | internal_address ↦ check_egress req
      | other_address ↦ check_ingress req
    ]
  ]

  -- `Check`; `none` for the error of an invalid request, whose attributes are nil in part.
  unfoldable pub check : Option (Option Attributes) → Option CheckResponse
  unfolding check_ingress check_egress
  check none = none
  check (some none) = none
  check (some (some attributes)) = elim attributes.source [
    | none ↦ none
    | some source ↦ elim attributes.request [
      | none ↦ none
      | some http ↦ elim http [ none ↦ none | some req ↦ some (check_source source req) ]
    ]
  ]
