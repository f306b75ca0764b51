-- ===== src/Authz/Server/Bearer.antt =====
-- The header that carries the token from the client's data plane to the service's.
use Prim.Native.String.{◌++◌ as str_append}
use text.Mathlib.TextPositions.{len-append, slice-append_right, starts_with-append}
use clusterlink.Common.{◌≡◌, refl, String, some, [], ◌∷◌, ok, err, string_eq}
use clusterlink.Common.Maps.{lookup}
use clusterlink.Authz.Server.{
  Authorizer, HttpRequest, allowed_response, denied_response, permission_denied, forbidden,
  authorization_header, target_cluster_header, bearer_schema_prefix, trim_prefix,
  check_service_access_request,
}

pub trim_prefix-append : (prefix text : String) → trim_prefix (str_append prefix text) prefix ≡ text
trim_prefix-append prefix text = rw (len-append prefix text) (slice-append_right prefix text)

-- The header that an egress answer sets for a token makes the ingress side parse exactly this token:
-- it answers with the cluster that the token is parsed to, or refuses with the parser's error.
pub check_service_access_request-bearer :
    (a : Authorizer) (req : HttpRequest) (token : String)
    → lookup authorization_header req.headers ≡ some (str_append bearer_schema_prefix token)
    → check_service_access_request a req ≡ elim (a.parse_authorization_header token) [
      | err e ↦ denied_response permission_denied forbidden e
      | ok cluster ↦ allowed_response ((target_cluster_header, cluster) ∷ []) []
    ]
unfolding check_service_access_request
check_service_access_request-bearer a req token e =
    rw
      (
        e,
        check_service_access_request,
        starts_with-append bearer_schema_prefix token,
        trim_prefix-append bearer_schema_prefix token,
      )
      refl
