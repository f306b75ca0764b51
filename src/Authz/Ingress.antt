-- ===== src/Authz/Ingress.antt =====
-- `authorizeIngress` and `parseAuthorizationHeader` of pkg/controlplane/authz/manager.go.
pub mod Granted
pub mod Tokens
pub mod Lookups
use Prim.Native.String.{◌++◌ as str_append}
use clusterlink.Common.{
  ℕ, ◌+◌, String, Bool, true, false, not, ◌&&◌, ◌||◌, Option, none, some, List, [], ◌∷◌, Result, ok,
  err, nat_eq, length, if◌then◌else◌, string_eq, ◌>>=◌,
}
use clusterlink.Common.Maps.{Map, lookup}
use clusterlink.Crds.Names.{NamespacedName}
use clusterlink.Crds.Policies.{AsSelector}
use clusterlink.Crds.Peers.{Export, Condition, export_valid}
use clusterlink.Pdp.Matching.{WorkloadAttrs, undecided, allow, deny}
use clusterlink.Pdp.Tiers.{Pdp, DestinationDecision, decide, depends_on_client_attrs}
use clusterlink.Authz.Attributes.{get_dst_attributes}
use clusterlink.Kube.{ApiError, is_not_found}
use clusterlink.Authz.Egress.{IsConditionTrue}

pub record IngressRequest : Type 0 where
  pub service_name : NamespacedName
  pub src_attributes : WorkloadAttrs

pub record IngressResponse : Type 0 where
  pub service_exists : Bool
  pub allowed : Bool
  pub access_token : String

-- A claim's value is an interface; `claim_other` is one that is no string.
pub data Claim : Type 0 where
  claim_text : String → Claim
  claim_other : Claim

-- The library of JSON web tokens: `build` with the time of expiration and the private claims,
-- `sign` with the key, and `parse` with the key and the time, which verifies and validates.
pub record Jwt (Key Token : Type 0) : Type 0 where
  pub build : ℕ → Map String Claim → Result String Token
  pub sign : Token → Key → Result String String
  pub parse : Key → ℕ → String → Result String (Map String Claim)

-- `claim_panics` stands for the panic of a type assertion.
pub data IngressError : Type 0 where
  cannot_get_export : ApiError → IngressError
  cannot_decide_ingress cannot_generate cannot_sign cannot_parse missing_claim :
      String → IngressError
  undefined_key claim_panics : IngressError

-- The manager's own fields that the methods read.
pub record IngressSelf (R Key : Type 0) : Type 0 where
  pub peer_name : String
  pub peer_labels : Map String String
  pub pdp : Pdp R
  pub jwk_key : Option Key

abbrev pub jwt_expiry_seconds : ℕ
jwt_expiry_seconds = 5

abbrev pub export_name_claim : String
export_name_claim = "export_name"

abbrev pub export_namespace_claim : String
export_namespace_claim = "export_namespace"

abbrev pub export_cluster_prefix : String
export_cluster_prefix = "export-"

unfoldable pub export_cluster_name : String → String → String
export_cluster_name name namespace =
    str_append export_cluster_prefix (str_append namespace (str_append "/" name))

abbrev pub no_service : IngressResponse
no_service = record { service_exists = false; allowed = false; access_token = "" }

abbrev pub refused_service : IngressResponse
refused_service = record { service_exists = true; allowed = false; access_token = "" }

-- The claims of a token for a service.
abbrev pub service_claims : NamespacedName → Map String Claim
service_claims k =
    (export_name_claim, claim_text k.name) ∷ (export_namespace_claim, claim_text k.namespace) ∷ []

-- The type assertions on the two claims.
abbrev pub cluster_of : Claim → Claim → Result IngressError String
cluster_of (claim_text name) (claim_text namespace) = ok (export_cluster_name name namespace)
cluster_of (claim_text name) claim_other = err claim_panics
cluster_of claim_other namespace = err claim_panics

module _ {Key Token : Type 0} (jwt : Jwt Key Token) where
  -- The key is read, and the token is signed with it.
  unfoldable pub sign_token : Option Key → Token → Result IngressError IngressResponse
  sign_token none token = err undefined_key
  sign_token (some key) token = elim (jwt.sign token key) [
    | err e ↦ err (cannot_sign e)
    | ok signed ↦ ok (record { service_exists = true; allowed = true; access_token = signed })
  ]

  -- The token is built, with the time in seconds.
  unfoldable pub issue_token : Option Key → ℕ → NamespacedName → Result IngressError IngressResponse
  unfolding sign_token
  issue_token key now service =
      elim (jwt.build (now + jwt_expiry_seconds) (service_claims service)) [
        | err e ↦ err (cannot_generate e)
        | ok token ↦ sign_token key token
      ]

  unfoldable pub parse_authorization_header : Option Key → ℕ → String → Result IngressError String
  parse_authorization_header none now token = err undefined_key
  parse_authorization_header (some key) now token = elim (jwt.parse key now token) [
    | err e ↦ err (cannot_parse e)
    | ok claims ↦ elim (lookup export_name_claim claims) [
      | none ↦ err (missing_claim export_name_claim)
      | some name ↦ elim (lookup export_namespace_claim claims) [
        | none ↦ err (missing_claim export_namespace_claim)
        | some namespace ↦ cluster_of name namespace
      ]
    ]
  ]

  module _ {R : Type 0} (as_selector : AsSelector R) (name_string : NamespacedName → String)
      (is_condition_true : IsConditionTrue) (m : IngressSelf R Key) (now : ℕ)
      (req : IngressRequest) where
    unfoldable pub after_ingress_decision :
        Result String DestinationDecision → Result IngressError IngressResponse
    unfolding issue_token
    after_ingress_decision (err e) = err (cannot_decide_ingress e)
    after_ingress_decision (ok d) = elim d.decision [
      | allow ↦ issue_token m.jwk_key now req.service_name
      | undecided ↦ ok refused_service
      | deny ↦ ok refused_service
    ]

    abbrev pub ingress_dst : Export → WorkloadAttrs
    ingress_dst export =
        get_dst_attributes export.object.name export.object.namespace m.peer_name export.labels
          m.peer_labels

    -- The export was read.
    unfoldable pub authorize_export : Export → Result IngressError IngressResponse
    unfolding after_ingress_decision
    authorize_export export =
        if nat_eq (length req.src_attributes) 0 && depends_on_client_attrs m.pdp
        then ok refused_service
        else after_ingress_decision (
            decide as_selector name_string req.src_attributes (ingress_dst export)
              req.service_name.namespace m.pdp)

    -- Where the Get fails, `export` is the zero value, without conditions.
    unfoldable pub authorize_ingress :
        (NamespacedName → Result ApiError Export) → Result IngressError IngressResponse
    unfolding authorize_export
    authorize_ingress get_export = elim (get_export req.service_name) [
      | err e ↦
          if is_not_found e || not (is_condition_true [] export_valid)
          then ok no_service
          else err (cannot_get_export e)
      | ok export ↦ authorize_export export
    ]
