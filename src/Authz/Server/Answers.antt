-- ===== src/Authz/Server/Answers.antt =====
-- What stands behind an answer that allows a connection.
use Prim.Native.String.{◌++◌ as str_append}
use clusterlink.Common.{
  ℕ, ◌+◌, ◌<◌, ◌≡◌, refl, ◌∙◌, inl, inr, String, true, Option, some, [], ◌∷◌, Result, ok, err,
  string_eq, arith, Option-cases, Result-cases,
}
use clusterlink.Common.Maps.{Map, lookup}
use clusterlink.Crds.Names.{NamespacedName}
use clusterlink.Authz.Egress.{EgressRequest, EgressResponse, AuthorizationRequest}
use clusterlink.Authz.Ingress.{
  Jwt, IngressError, IngressRequest, IngressResponse, jwt_expiry_seconds, export_cluster_name,
  parse_authorization_header,
}
use clusterlink.Authz.Ingress.Granted.{Signed}
use clusterlink.Authz.Ingress.Tokens.{ParsesSigned, parse_authorization_header-Signed}
use clusterlink.Authz.Server.{
  Authorizer, HttpRequest, allowed_response, answer_egress, check_egress,
  check_authorization_request, check_service_access_request, client_ip_header, import_name_header,
  import_namespace_header, authorization_header, target_cluster_header, access_token_header,
  bearer_schema_prefix,
}
use clusterlink.Authz.Server.Bearer.{check_service_access_request-bearer}

-- The headers of an egress answer.
abbrev pub egress_headers : EgressResponse → Map String String
egress_headers resp =
    (target_cluster_header, resp.remote_peer_cluster)
    ∷ (authorization_header, str_append bearer_schema_prefix resp.access_token)
    ∷ []

abbrev pub egress_request : String → String → String → EgressRequest
egress_request ip name namespace = record {
  import_name = record { namespace = namespace; name = name };
  ip = ip;
}

abbrev pub ingress_request : AuthorizationRequest → IngressRequest
ingress_request authz = record {
  service_name = record { namespace = authz.service_namespace; name = authz.service_name };
  src_attributes = authz.src_attributes;
}

module _ (a : Authorizer) (req : HttpRequest) (headers to_add : Map String String) where
  answer_egress-allowed :
      (ip name namespace : String)
      → answer_egress a ip name namespace ≡ allowed_response headers to_add
      → (resp : EgressResponse) × (a.authorize_egress (egress_request ip name namespace) ≡ ok resp)
        × (resp.allowed ≡ true)
        × (headers ≡ egress_headers resp)
        × (to_add ≡ [])
  unfolding answer_egress
  answer_egress-allowed ip name namespace h =
      elim (Result-cases (a.authorize_egress (egress_request ip name namespace))) [
        | inr (x, e) ↦ absurd (ground arith)
        | inl (resp, e) ↦ (resp, e, ground arith, ground arith, ground arith)
      ]

  -- An egress check is allowed only for a request with all three headers whose authorization by the
  -- manager was granted, and then routes to the peer that the manager chose, with its token.
  pub check_egress-allowed :
      check_egress a req ≡ allowed_response headers to_add
      → (ip : String) × (name : String) × (namespace : String) × (resp : EgressResponse) × (lookup
            client_ip_header req.headers
          ≡ some ip)
        × (lookup import_name_header req.headers ≡ some name)
        × (lookup import_namespace_header req.headers ≡ some namespace)
        × (a.authorize_egress (egress_request ip name namespace) ≡ ok resp)
        × (resp.allowed ≡ true)
        × (headers ≡ egress_headers resp)
        × (to_add ≡ [])
  unfolding check_egress
  check_egress-allowed h = elim (Option-cases (lookup client_ip_header req.headers)) [
    | inl e ↦ absurd (ground arith)
    | inr (ip, e) ↦ elim (Option-cases (lookup import_name_header req.headers)) [
      | inl f ↦ absurd (ground arith)
      | inr (name, f) ↦ elim (Option-cases (lookup import_namespace_header req.headers)) [
        | inl g ↦ absurd (ground arith)
        | inr (namespace, g) ↦
            let (resp, granted, allowed, same, nothing) =
              answer_egress-allowed ip name namespace (ground arith) in
            (ip, name, namespace, resp, e, f, g, granted, allowed, same, nothing)
      ]
    ]
  ]

  -- A peer's authorization request is allowed only where its body is decoded and the manager finds
  -- the service and allows the access; the answer then carries the manager's token.
  pub check_authorization_request-allowed :
      check_authorization_request a req ≡ allowed_response headers to_add
      → (authz : AuthorizationRequest) × (resp : IngressResponse) × (a.decode req.body ≡ ok authz)
        × (a.authorize_ingress (ingress_request authz) ≡ ok resp)
        × (resp.service_exists ≡ true)
        × (resp.allowed ≡ true)
        × (headers ≡ [])
        × (to_add ≡ (access_token_header, resp.access_token) ∷ [])
  unfolding check_authorization_request
  check_authorization_request-allowed h = elim (Result-cases (a.decode req.body)) [
    | inr (x, e) ↦ absurd (ground arith)
    | inl (authz, e) ↦ elim (Result-cases (a.authorize_ingress (ingress_request authz))) [
      | inr (x, f) ↦ absurd (ground arith)
      | inl (resp, f) ↦ (authz, resp, e, f, ground arith, ground arith, ground arith, ground arith)
    ]
  ]

-- An error as the text that the response carries.
abbrev pub printed : (IngressError → String) → Result IngressError String → Result String String
printed message (ok cluster) = ok cluster
printed message (err e) = err (message e)

-- A connection that carries the token of a granted ingress request in its authorization header, as
-- the egress answer sets it, is let through to the cluster of the export, as long as the token is
-- not expired and the manager has the same key.
pub check_service_access_request-Signed :
    {Key Token : Type 0} (jwt : Jwt Key Token) (message : IngressError → String) (key : Option Key)
    (issued now : ℕ) (service : NamespacedName) (text : String) (a : Authorizer) (req : HttpRequest)
    → ParsesSigned jwt
    → now < issued + jwt_expiry_seconds
    → Signed jwt key issued service text
    → ((token : String)
        → a.parse_authorization_header token
          ≡ printed message (parse_authorization_header jwt key now token))
    → lookup authorization_header req.headers ≡ some (str_append bearer_schema_prefix text)
    → check_service_access_request a req
      ≡ allowed_response
          ((target_cluster_header, export_cluster_name service.name service.namespace) ∷ [])
          []
check_service_access_request-Signed jwt message key issued now service text a req parses fresh
      signed same h =
    check_service_access_request-bearer a req text h
    ∙ rw
        (
          same text,
          parse_authorization_header-Signed jwt key issued now service text parses fresh signed,
        )
        refl
