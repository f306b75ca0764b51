-- ===== src/Dataplane/Certificates.antt =====
-- The certificates that the control plane sets, in the TLS configuration of the data plane.
use clusterlink.Common.{
  ◌≡◌, ap, ◌∙◌, ◌⊎◌, inl, inr, String, Option, none, some, List, [], ◌∷◌, Result, ok,
}
use clusterlink.Xds.{TlsSecret, RawCertData, certificate_of, validation_of}
use clusterlink.Dataplane.{Dataplane}
use clusterlink.Dataplane.Secrets.{
  set_certificate, set_authorities, then_next, add_certificate_secret, add_validation_secret,
  add_secret, handle_secrets,
}

-- The TLS configuration of the data plane for these certificates.
abbrev pub tls_for :
    {Certificate Pool : Type 0}
    → Certificate
    → Pool
    → Dataplane Certificate Pool
    → Dataplane Certificate Pool
tls_for certificate pool d = record d {
  tls = record { certificates = some certificate; client_cas = some pool; root_cas = some pool };
}

module _ {Message Certificate Pool : Type 0}
    (x509_key_pair : String → String → Result String Certificate)
    (pool_from_pem : String → Option Pool) (unmarshal : Message → Result String TlsSecret)
    (raw : RawCertData) (certificate : Certificate) (pool : Pool) where
  abbrev pub handle :
      List Message → Dataplane Certificate Pool → Dataplane Certificate Pool × Option String
  handle = handle_secrets x509_key_pair pool_from_pem unmarshal

  abbrev with_certificate : Dataplane Certificate Pool → Dataplane Certificate Pool
  with_certificate d = record d { tls = record (d.tls) { certificates = some certificate } }

  abbrev with_authorities : Dataplane Certificate Pool → Dataplane Certificate Pool
  with_authorities d = record d {
    tls = record (d.tls) { client_cas = some pool; root_cas = some pool };
  }

  abbrev add : TlsSecret → Dataplane Certificate Pool → Dataplane Certificate Pool × Option String
  add = add_secret x509_key_pair pool_from_pem

  add_certificate :
      (d : Dataplane Certificate Pool)
      → x509_key_pair raw.certificate raw.key ≡ ok certificate
      → add (certificate_of raw) d ≡ (with_certificate d, none)
  unfolding add_secret add_certificate_secret
  add_certificate d pair = ap (λ (r : Result String Certificate). set_certificate r d) pair

  add_authorities :
      (d : Dataplane Certificate Pool)
      → pool_from_pem raw.ca ≡ some pool
      → add (validation_of raw) d ≡ (with_authorities d, none)
  unfolding add_secret add_validation_secret
  add_authorities d authorities = ap (λ (r : Option Pool). set_authorities r d) authorities

  handle_one :
      (r : Message) (rs : List Message) (secret : TlsSecret) (d d' : Dataplane Certificate Pool)
      → unmarshal r ≡ ok secret
      → add secret d ≡ (d', none)
      → handle (r ∷ rs) d ≡ handle rs d'
  unfolding handle_secrets
  handle_one r rs secret d d' q added =
      rw (q, handle_secrets)
        (ap
          (λ (a : Dataplane Certificate Pool × Option String). then_next secret.name a (handle rs))
          added)

  -- Where the certificate and its key match and the authority is well-formed, the two secrets of the
  -- control plane, in either order, give the data plane the certificate and the authority for clients
  -- and servers, in place of those of before.
  pub handle_secrets-certificates :
      (first second : Message) (d : Dataplane Certificate Pool)
      → x509_key_pair raw.certificate raw.key ≡ ok certificate
      → pool_from_pem raw.ca ≡ some pool
      → ((unmarshal first ≡ ok (certificate_of raw)) × (unmarshal second ≡ ok (validation_of raw)))
        ⊎ ((unmarshal first ≡ ok (validation_of raw))
            × (unmarshal second ≡ ok (certificate_of raw)))
      → handle (first ∷ second ∷ []) d ≡ (tls_for certificate pool d, none)
  unfolding handle_secrets
  handle_secrets-certificates first second d pair authorities (inl (a, b)) =
      handle_one first (second ∷ []) (certificate_of raw) d (with_certificate d) a
        (add_certificate d pair)
      ∙ handle_one second [] (validation_of raw) (with_certificate d)
          (with_authorities (with_certificate d)) b
          (add_authorities (with_certificate d) authorities)
  handle_secrets-certificates first second d pair authorities (inr (a, b)) =
      handle_one first (second ∷ []) (validation_of raw) d (with_authorities d) a
        (add_authorities d authorities)
      ∙ handle_one second [] (certificate_of raw) (with_authorities d)
          (with_certificate (with_authorities d)) b (add_certificate (with_authorities d) pair)
