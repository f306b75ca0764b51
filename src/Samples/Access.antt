-- ===== src/Samples/Access.antt =====
-- A service "web" that is asked for, with a token library for the namespace "default".
use Prim.Native.String.{◌++◌ as str_append}
use clusterlink.Common.{
  ℕ, ◌≡◌, refl, String, Bool, true, false, ◌&&◌, some, List, [], ◌∷◌, Result, ok, err, str_eq,
  eq_iff, string_eq, arith, if◌then◌else◌,
}
use clusterlink.Common.Maps.{Map, lookup}
use clusterlink.Crds.Names.{NamespacedName}
use clusterlink.Crds.Peers.{Export, Condition}
use clusterlink.Pdp.Matching.{
  allow, access_policy_decide, access_policy_matches, workload_set_or_selector_list_matches,
  workload_set_or_selector_matches,
}
use clusterlink.Pdp.Tiers.{
  DestinationDecision, decide, tier_decide, map_decide, depends_on_client_attrs,
}
use clusterlink.Kube.{ApiError}
use clusterlink.Authz.Egress.{EgressResponse, AuthorizationRequest}
use clusterlink.Authz.Ingress.{
  Jwt, Claim, claim_text, claim_other, IngressSelf, IngressRequest, IngressResponse, IngressError,
  authorize_ingress, authorize_export, after_ingress_decision, issue_token, sign_token,
  parse_authorization_header, export_cluster_name, service_claims, export_name_claim,
  export_namespace_claim, ingress_dst,
}
use clusterlink.Authz.Ingress.Granted.{Signed, ingress_granted}
use clusterlink.Authz.Ingress.Tokens.{
  ParsesSigned, parse_authorization_header-Signed, parse_authorization_header-ok,
}
use clusterlink.Authz.Server.{
  Authorizer, HttpRequest, allowed_response, check_egress, answer_egress,
  check_authorization_request, check_service_access_request, target_cluster_header,
  access_token_header, authorization_header, bearer_schema_prefix, client_ip_header,
  import_name_header, import_namespace_header,
}
use clusterlink.Authz.Server.Answers.{
  egress_headers, egress_request, ingress_request, printed, check_egress-allowed,
  check_authorization_request-allowed, check_service_access_request-Signed,
}
use clusterlink.Samples.World.{as_selector, name_string, object, allow_all}

-- A token is the name of a service of the namespace.
abbrev build : ℕ → Map String Claim → Result String String
build expires [] = err "unsupported"
build expires (c ∷ []) = err "unsupported"
build expires ((n, claim_other) ∷ d ∷ []) = err "unsupported"
build expires ((n, claim_text x) ∷ (m, claim_other) ∷ []) = err "unsupported"
build expires ((n, claim_text x) ∷ (m, claim_text y) ∷ []) =
    if str_eq n "export_name" && str_eq m "export_namespace" && str_eq y "default"
    then ok x
    else err "unsupported"
build expires (c ∷ d ∷ e ∷ rest) = err "unsupported"

abbrev jwt : Jwt (Unit {0}) String
jwt = record {
  build = build;
  sign = λ token key. ok token;
  parse = λ key now text. ok (service_claims (object text));
}

build-ok :
    (expires : ℕ) (claims : Map String Claim) (token : String)
    → build expires claims ≡ ok token
    → service_claims (object token) ≡ claims
build-ok expires [] token h = absurd (cc)
build-ok expires (c ∷ []) token h = absurd (cc)
build-ok expires ((n, claim_other) ∷ d ∷ []) token h = absurd (cc)
build-ok expires ((n, claim_text x) ∷ (m, claim_other) ∷ []) token h = absurd (cc)
build-ok expires ((n, claim_text x) ∷ (m, claim_text y) ∷ []) token h =
    ground (arith, eq_iff n "export_name", eq_iff m "export_namespace", eq_iff y "default")
build-ok expires (c ∷ d ∷ e ∷ rest) token h = absurd (cc)

jwt-ParsesSigned : ParsesSigned jwt
jwt-ParsesSigned k expires now claims token text built signed fresh =
    let q = build-ok expires claims token built in grind (arith, q)

abbrev never : List Condition → String → Bool
never conditions kind = false

abbrev self : IngressSelf (Unit {0}) (Unit {0})
self = record {
  peer_name = "here";
  peer_labels = [];
  pdp = record {
    privileged_policies = record { privileged = true; deny_policies = []; allow_policies = [] };
    regular_policies = record {
      privileged = false;
      deny_policies = [];
      allow_policies = (object "open", allow_all) ∷ [];
    };
  };
  jwk_key = some tt;
}

abbrev request : IngressRequest
request = record { service_name = object "web"; src_attributes = [] }

abbrev web : Export
web = record { object = object "web"; labels = []; host = ""; port = 80; conditions = [] }

abbrev granted : IngressResponse
granted = record { service_exists = true; allowed = true; access_token = "web" }

abbrev get_web : NamespacedName → Result ApiError Export
get_web k = ok web

abbrev no_headers : Map String String
no_headers = []

abbrev token_header : Map String String
token_header = (access_token_header, "web") ∷ []

answer_lem :
    authorize_ingress jwt as_selector name_string never self 100 request (λ k. ok web) ≡ ok granted
unfolding authorize_ingress authorize_export after_ingress_decision issue_token sign_token decide
    tier_decide map_decide access_policy_decide access_policy_matches
    workload_set_or_selector_list_matches workload_set_or_selector_matches depends_on_client_attrs
answer_lem = refl

ingress_granted_example :
    (export : Export) × (get_web (object "web") ≡ ok export)
    × ((true && depends_on_client_attrs self.pdp) ≡ false)
    × ((d : DestinationDecision) × (decide as_selector name_string []
            (ingress_dst jwt as_selector name_string never self 100 request export)
            "default"
            self.pdp
          ≡ ok d)
        × (d.decision ≡ allow))
    × Signed jwt (some tt) 100 (object "web") "web"
ingress_granted_example =
    ingress_granted jwt as_selector name_string never self 100 request granted refl get_web
      answer_lem

web-Signed : Signed jwt (some tt) 100 (object "web") "web"
web-Signed = (tt, "web", refl, refl, refl)

parse_authorization_header-Signed_example :
    parse_authorization_header jwt (some tt) 104 "web" ≡ ok (export_cluster_name "web" "default")
parse_authorization_header-Signed_example =
    parse_authorization_header-Signed jwt (some tt) 100 104 (object "web") "web" jwt-ParsesSigned
      (omega arith) web-Signed

parse_authorization_header-ok_example :
    (k : Unit {0}) × (claims : Map String Claim) × (name : String) × (namespace : String) × (some tt
      ≡ some k)
    × (jwt.parse k 104 "web" ≡ ok claims)
    × (lookup export_name_claim claims ≡ some (claim_text name))
    × (lookup export_namespace_claim claims ≡ some (claim_text namespace))
    × (export_cluster_name "web" "default" ≡ export_cluster_name name namespace)
parse_authorization_header-ok_example =
    parse_authorization_header-ok jwt (some tt) 104 "web" (export_cluster_name "web" "default")
      parse_authorization_header-Signed_example

-- A manager that grants every egress request, and parses tokens at the time 104.
abbrev message : IngressError → String
message e = "refused"

abbrev remote : EgressResponse
remote = record { allowed = true; remote_peer_cluster = "remote-peer-east"; access_token = "web" }

abbrev authz_request : AuthorizationRequest
authz_request = record { service_name = "web"; service_namespace = "default"; src_attributes = [] }

abbrev authorizer : Authorizer
authorizer = record {
  authorize_egress = λ req. ok remote;
  authorize_ingress = λ req. ok granted;
  parse_authorization_header =
      λ token. printed message (parse_authorization_header jwt (some tt) 104 token);
  decode = λ body. ok authz_request;
  peer_labels = "{}";
}

abbrev http : Map String String → HttpRequest
http headers = record { method = "CONNECT"; path = "/"; headers = headers; body = "" }

abbrev bearer : Map String String
bearer = (authorization_header, "Bearer web") ∷ []

abbrev import_headers : Map String String
import_headers =
    (client_ip_header, "10.0.0.1")
    ∷ (import_name_header, "web")
    ∷ (import_namespace_header, "default")
    ∷ []

bearer_found : lookup authorization_header bearer ≡ some (str_append bearer_schema_prefix "web")
unfolding lookup
bearer_found = refl

check_service_access_request-Signed_example :
    check_service_access_request authorizer (http bearer)
    ≡ allowed_response ((target_cluster_header, export_cluster_name "web" "default") ∷ []) []
check_service_access_request-Signed_example =
    check_service_access_request-Signed jwt message (some tt) 100 104 (object "web") "web"
      authorizer (http bearer) jwt-ParsesSigned (omega arith) web-Signed (λ token. refl)
      bearer_found

egress_lem :
    check_egress authorizer (http import_headers) ≡ allowed_response (egress_headers remote) []
unfolding check_egress answer_egress lookup
egress_lem = refl

check_egress-allowed_example :
    (ip : String) × (name : String) × (namespace : String) × (resp : EgressResponse) × (lookup
        client_ip_header import_headers
      ≡ some ip)
    × (lookup import_name_header import_headers ≡ some name)
    × (lookup import_namespace_header import_headers ≡ some namespace)
    × (authorizer.authorize_egress (egress_request ip name namespace) ≡ ok resp)
    × (resp.allowed ≡ true)
    × (egress_headers remote ≡ egress_headers resp)
    × (no_headers ≡ [])
check_egress-allowed_example =
    check_egress-allowed authorizer (http import_headers) (egress_headers remote) [] egress_lem

authorization_lem :
    check_authorization_request authorizer (http []) ≡ allowed_response no_headers token_header
unfolding check_authorization_request
authorization_lem = refl

check_authorization_request-allowed_example :
    (authz : AuthorizationRequest) × (resp : IngressResponse) × (authorizer.decode "" ≡ ok authz)
    × (authorizer.authorize_ingress (ingress_request authz) ≡ ok resp)
    × (resp.service_exists ≡ true)
    × (resp.allowed ≡ true)
    × (no_headers ≡ [])
    × (token_header ≡ (access_token_header, resp.access_token) ∷ [])
check_authorization_request-allowed_example =
    check_authorization_request-allowed authorizer (http []) no_headers token_header
      authorization_lem
