-- ===== src/Dataplane/Granted.antt =====
-- An egress connection of the data plane, with the control plane's authorization server behind it.
use Prim.Native.String.{◌++◌ as str_append}
use text.Mathlib.TextPositions.{starts_with-append}
use clusterlink.Common.{
  ◌≡◌, refl, ap, ◌∙◌, inl, inr, String, false, not, none, some, [], ◌∷◌, Result, ok, err, str_eq,
  eq_iff, if◌then◌else◌, arith, string_eq, Bool-cases, Result-cases,
}
use clusterlink.Common.Maps.{lookup}
use clusterlink.Common.Texts.{chars, Lacks, split_first_lem, of_list-chars, chars-append, head_code}
use clusterlink.Crds.Imports.{Import}
use clusterlink.Authz.Egress.{EgressResponse}
use clusterlink.Authz.Server.{
  Authorizer, Attributes, CheckResponse, allowed_response, check, check_egress, answer_egress,
  target_cluster_header, authorization_header, bearer_schema_prefix, quoted,
}
use clusterlink.Authz.Server.Bearer.{trim_prefix-append}
use clusterlink.Xds.{import_listener, import_listener_name, import_listener_prefix}
use clusterlink.Dataplane.Listeners.{listener_name}
use clusterlink.Dataplane.Egress.{
  EgressError, egress_denied, missing_target_cluster, find_headers, read_answer, get_egress_auth,
}

-- The name that the data plane gives to an import's listener.
listener_name-import :
    (imp : Import)
    → listener_name (import_listener imp)
      ≡ str_append imp.object.namespace (str_append "/" imp.object.name)
unfolding import_listener_name
listener_name-import imp =
    let rest : String = str_append imp.object.namespace (str_append "/" imp.object.name) in
    rw (starts_with-append import_listener_prefix rest)
      (trim_prefix-append import_listener_prefix rest)

bearer_not_empty : (token : String) → str_eq (str_append bearer_schema_prefix token) "" ≡ false
bearer_not_empty token = elim (Bool-cases (str_eq (str_append bearer_schema_prefix token) "")) [
  | inr h ↦ h
  | inl h ↦
      let heads = ap (λ (t : String). head_code (chars t)) ((eq_iff _ _).0 h) in
      let first = ap head_code (chars-append bearer_schema_prefix token) in
      absurd (omega (arith, heads, first))
]

-- An answer that allows the connection, with a cluster and a token.
granted_lem :
    (cluster token : String)
    → read_answer (
        allowed_response
          ((target_cluster_header, cluster)
            ∷ (authorization_header, str_append bearer_schema_prefix token)
            ∷ [])
          [])
      ≡ (if str_eq cluster ""
          then err missing_target_cluster
          else ok (cluster, str_append bearer_schema_prefix token))
unfolding read_answer find_headers
granted_lem cluster token = elim (Bool-cases (str_eq cluster "")) [
  | inl empty ↦ rw empty refl
  | inr found ↦ rw (found, bearer_not_empty token) refl
]

module _ (a : Authorizer) where
  -- The call of the server, which answers every request that has attributes.
  abbrev pub call : Attributes → Result String CheckResponse
  call attributes = elim (check a (some (some attributes))) [
    | none ↦ err "invalid request"
    | some resp ↦ ok resp
  ]

  -- What an authorizer's answer means to the data plane.
  abbrev pub as_granted :
      String → String → Result String EgressResponse → Result EgressError (String × String)
  as_granted namespace name (err e) = err (egress_denied e)
  as_granted namespace name (ok resp) =
      if not resp.allowed
      then err (egress_denied (quoted "Access denied for '" namespace name "'."))
      else if str_eq resp.remote_peer_cluster ""
      then err missing_target_cluster
      else ok (resp.remote_peer_cluster, str_append bearer_schema_prefix resp.access_token)

  answer_lem :
      (namespace name ip : String)
      → read_answer (answer_egress a ip name namespace)
        ≡ as_granted namespace name (
            a.authorize_egress
              (record { import_name = record { namespace = namespace; name = name }; ip = ip }))
  unfolding answer_egress read_answer
  answer_lem namespace name ip =
      elim (Result-cases (
        a.authorize_egress
          (record { import_name = record { namespace = namespace; name = name }; ip = ip }))) [
            | inr (e, q) ↦ rw (q, answer_egress) refl
            | inl (resp, q) ↦ elim (Bool-cases resp.allowed) [
              | inr refused ↦ rw (q, answer_egress, refused) refl
              | inl allowed ↦
                  rw (q, answer_egress, allowed)
                    (granted_lem resp.remote_peer_cluster resp.access_token)
            ]
          ]

  -- Where a connection arrives at the listener of an import, the data plane gets the cluster and the
  -- bearer token of the authorizer's answer for this import and the client's address, if the answer
  -- allows the connection and has a cluster, and an error else.
  pub get_egress_auth-import :
      (imp : Import) (ip : String)
      → Lacks "/" imp.object.namespace
      → get_egress_auth call (listener_name (import_listener imp)) ip
        ≡ as_granted imp.object.namespace imp.object.name
            (a.authorize_egress (record { import_name = imp.object; ip = ip }))
  unfolding get_egress_auth check check_egress lookup
  get_egress_auth-import imp ip plain =
      ap (λ (name : String). get_egress_auth call name ip) (listener_name-import imp)
      ∙ rw
          (
            split_first_lem imp.object.namespace imp.object.name plain,
            get_egress_auth,
            of_list-chars imp.object.namespace,
            of_list-chars imp.object.name,
          )
          (answer_lem imp.object.namespace imp.object.name ip)
