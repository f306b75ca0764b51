-- ===== src/Authz/Ingress/Tokens.antt =====
-- What a token is worth that `authorizeIngress` gave.
use clusterlink.Common.{
  ℕ, ◌+◌, ◌<◌, ◌≡◌, refl, ap, ◌∙◌, inl, inr, String, Option, none, some, ok, string_eq, arith,
  Result-cases, Option-cases,
}
use clusterlink.Common.Maps.{Map, lookup}
use clusterlink.Crds.Names.{NamespacedName}
use clusterlink.Authz.Ingress.{
  Jwt, Claim, claim_text, claim_other, cluster_of, service_claims, jwt_expiry_seconds,
  export_cluster_name, parse_authorization_header, export_name_claim, export_namespace_claim,
}
use clusterlink.Authz.Ingress.Granted.{Signed}

-- The library's documented behaviour: a built and signed token is parsed, by the same key and
-- before it expires, into its private claims.
abbrev pub ParsesSigned : {Key Token : Type 0} → Jwt Key Token → Type 0
ParsesSigned {Key} {Token} jwt =
    (k : Key) (expires now : ℕ) (claims : Map String Claim) (token : Token) (text : String)
    → jwt.build expires claims ≡ ok token
    → jwt.sign token k ≡ ok text
    → now < expires
    → jwt.parse k now text ≡ ok claims

cluster_of-ok :
    (a b : Claim) (cluster : String)
    → cluster_of a b ≡ ok cluster
    → (name : String) × (namespace : String) × (a ≡ claim_text name)
      × (b ≡ claim_text namespace)
      × (cluster ≡ export_cluster_name name namespace)
cluster_of-ok (claim_text name) (claim_text namespace) cluster h = (name, namespace, refl, refl, cc)
cluster_of-ok (claim_text name) claim_other cluster h = absurd (cc)
cluster_of-ok claim_other b cluster h = absurd (cc)

module _ {Key Token : Type 0} (jwt : Jwt Key Token) where
  parse_claims :
      (k : Key) (now : ℕ) (service : NamespacedName) (text : String)
      → jwt.parse k now text ≡ ok (service_claims service)
      → parse_authorization_header jwt (some k) now text
        ≡ ok (export_cluster_name service.name service.namespace)
  unfolding parse_authorization_header lookup
  parse_claims k now service text e = ground arith

  -- A token that was signed for a service is accepted by a manager with the same key for as long as
  -- it is not expired, and leads to the cluster of the export of the service.
  pub parse_authorization_header-Signed :
      (key : Option Key) (issued now : ℕ) (service : NamespacedName) (text : String)
      → ParsesSigned jwt
      → now < issued + jwt_expiry_seconds
      → Signed jwt key issued service text
      → parse_authorization_header jwt key now text
        ≡ ok (export_cluster_name service.name service.namespace)
  parse_authorization_header-Signed key issued now service text parses fresh
        (k, token, same, built, signed) =
      rw same (parse_claims k now service text (parses k _ now _ token text built signed fresh))

  -- Where a token is accepted, the manager has a key by which the token verifies at this time, and
  -- the cluster is the one of the export that the token's two claims name.
  pub parse_authorization_header-ok :
      (key : Option Key) (now : ℕ) (text cluster : String)
      → parse_authorization_header jwt key now text ≡ ok cluster
      → (k : Key) × (claims : Map String Claim) × (name : String) × (namespace : String) × (key
          ≡ some k)
        × (jwt.parse k now text ≡ ok claims)
        × (lookup export_name_claim claims ≡ some (claim_text name))
        × (lookup export_namespace_claim claims ≡ some (claim_text namespace))
        × (cluster ≡ export_cluster_name name namespace)
  unfolding parse_authorization_header
  parse_authorization_header-ok none now text cluster h = absurd (cc)
  parse_authorization_header-ok (some k) now text cluster h =
      elim (Result-cases (jwt.parse k now text)) [
        | inr (x, e) ↦ absurd (ground arith)
        | inl (claims, e) ↦ elim (Option-cases (lookup export_name_claim claims)) [
          | inl missing ↦ absurd (ground arith)
          | inr (name, named) ↦ elim (Option-cases (lookup export_namespace_claim claims)) [
            | inl missing ↦ absurd (ground arith)
            | inr (namespace, placed) ↦
                let q : cluster_of name namespace ≡ ok cluster = ground arith in
                let (n, ns, is_name, is_namespace, same) = cluster_of-ok name namespace cluster q in
                (
                  k,
                  claims,
                  n,
                  ns,
                  refl,
                  e,
                  named ∙ ap some is_name,
                  placed ∙ ap some is_namespace,
                  same,
                )
          ]
        ]
      ]
