-- ===== src/Dataplane/Secrets.antt =====
-- The certificates of the data plane: AddSecret of pkg/dataplane/server/dataplane.go and handleSecrets
-- of pkg/dataplane/client/fetcher.go.
use Prim.Native.String.{◌++◌ as str_append}
use clusterlink.Common.{
  String, Option, none, some, List, [], ◌∷◌, Result, ok, err, str_eq, if◌then◌else◌,
}
use clusterlink.Dataplane.{Dataplane}
use clusterlink.Xds.{
  TlsSecret, SecretContent, tls_certificate, validation_context, other_content, certificate_secret,
  validation_secret,
}

abbrev pub adding_failed : String → String → String
adding_failed name e = str_append "error adding secret " (str_append name (str_append ": " e))

module _ {Certificate Pool : Type 0} where
  -- After `tls.X509KeyPair`.
  abbrev pub set_certificate :
      Result String Certificate
      → Dataplane Certificate Pool
      → Dataplane Certificate Pool × Option String
  set_certificate (err e) d = (d, some (str_append "error parsing certificate: " e))
  set_certificate (ok certificate) d =
      (record d { tls = record (d.tls) { certificates = some certificate } }, none)

  -- After the authorities were parsed.
  abbrev pub set_authorities :
      Option Pool → Dataplane Certificate Pool → Dataplane Certificate Pool × Option String
  set_authorities none d = (d, some "error parsing CA")
  set_authorities (some pool) d =
      (record d { tls = record (d.tls) { client_cas = some pool; root_cas = some pool } }, none)

  -- After AddSecret: an error ends the loop.
  abbrev pub then_next :
      String
      → Dataplane Certificate Pool × Option String
      → (Dataplane Certificate Pool → Dataplane Certificate Pool × Option String)
      → Dataplane Certificate Pool × Option String
  then_next name (d, some e) next = (d, some (adding_failed name e))
  then_next name (d, none) next = next d

-- `x509_key_pair` is `tls.X509KeyPair`, and `pool_from_pem` a new pool with `AppendCertsFromPEM`.
module _ {Certificate Pool : Type 0} (x509_key_pair : String → String → Result String Certificate)
    (pool_from_pem : String → Option Pool) where
  unfoldable pub add_certificate_secret :
      SecretContent → Dataplane Certificate Pool → Dataplane Certificate Pool × Option String
  add_certificate_secret (tls_certificate none key) d = (d, some "no certificate chain")
  add_certificate_secret (tls_certificate (some none) key) d =
      (d, some "no certificate chain bytes embedded")
  add_certificate_secret (tls_certificate (some (some cert)) none) d = (d, some "no private key")
  add_certificate_secret (tls_certificate (some (some cert)) (some none)) d =
      (d, some "no private key bytes embedded")
  add_certificate_secret (tls_certificate (some (some cert)) (some (some key))) d =
      set_certificate (x509_key_pair cert key) d
  add_certificate_secret (validation_context ca) d = (d, some "not a TLS certificate secret")
  add_certificate_secret other_content d = (d, some "not a TLS certificate secret")

  unfoldable pub add_validation_secret :
      SecretContent → Dataplane Certificate Pool → Dataplane Certificate Pool × Option String
  add_validation_secret (validation_context none) d = (d, some "no trusted CA")
  add_validation_secret (validation_context (some none)) d = (d, some "no CA bytes embedded")
  add_validation_secret (validation_context (some (some ca))) d =
      set_authorities (pool_from_pem ca) d
  add_validation_secret (tls_certificate cert key) d = (d, some "not a validation context secret")
  add_validation_secret other_content d = (d, some "not a validation context secret")

  unfoldable pub add_secret :
      TlsSecret → Dataplane Certificate Pool → Dataplane Certificate Pool × Option String
  unfolding add_certificate_secret add_validation_secret
  add_secret secret d =
      if str_eq secret.name certificate_secret
      then add_certificate_secret secret.content d
      else if str_eq secret.name validation_secret
      then add_validation_secret secret.content d
      else (d, some (str_append "unknown secret: " secret.name))

  unfoldable pub handle_secrets :
      {Any : Type 0}
      → (Any → Result String TlsSecret)
      → List Any
      → Dataplane Certificate Pool
      → Dataplane Certificate Pool × Option String
  unfolding add_secret
  handle_secrets unmarshal [] d = (d, none)
  handle_secrets unmarshal (r ∷ rs) d = elim (unmarshal r) [
    | err e ↦ (d, some e)
    | ok secret ↦ then_next secret.name (add_secret secret d) (handle_secrets unmarshal rs)
  ]
