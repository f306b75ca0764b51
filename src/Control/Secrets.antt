-- ===== src/Control/Secrets.antt =====
-- The secret of the key that signs access tokens: checkJWKSecret, CreateJWKSSecret and
-- ParseJWKSSecret of pkg/controlplane/control/manager.go.
use clusterlink.Common.{
  String, not, ◌||◌, Option, none, some, [], ◌∷◌, Result, ok, err, if◌then◌else◌, str_eq, string_eq,
}
use clusterlink.Common.Maps.{lookup}
use clusterlink.Crds.Names.{NamespacedName}
use clusterlink.Kube.{ApiError, not_found, already_exists, api_failed}
use clusterlink.Control.{
  Secret, Setup, ControlState, End, store, with_store, wrote, api_error, cannot_generate_key,
}

abbrev pub jwk_secret_name : String
jwk_secret_name = "jwk"

abbrev pub jwk_secret_key_name : String
jwk_secret_key_name = "key"

-- The decoding of Base64 is a parameter.
unfoldable pub parse_jwks_secret : (String → Option String) → Secret → Result String String
parse_jwks_secret decode secret = elim (lookup jwk_secret_key_name secret.data_of) [
  | none ↦ err "secret missing key key"
  | some text ↦ elim (decode text) [ none ↦ err "cannot base64 decode key" | some key ↦ ok key ]
]

module _ {S : Type 0} (w : Setup S) where
  abbrev pub jwk_secret : NamespacedName
  jwk_secret = record { namespace = w.namespace; name = jwk_secret_name }

  abbrev pub new_secret : String → Secret
  new_secret key = record { object = jwk_secret; data_of = (jwk_secret_key_name, key) ∷ [] }

  -- `key` is what `generateJWKSecret` returns, from a random source.
  unfoldable pub update_jwk_secret : Result String String → ControlState S → End S
  update_jwk_secret (err e) m = (m, some (cannot_generate_key e))
  update_jwk_secret (ok key) m = wrote m (w.secrets.update (new_secret key) (store m))

  -- After the Get: where it succeeds, its nil error is not a not-found error and is returned; where it
  -- fails, the secret that is parsed is the empty one.
  unfoldable pub check_read_secret :
      (String → Option String)
      → Result String String
      → ControlState S
      → Result ApiError Secret
      → End S
  unfolding parse_jwks_secret update_jwk_secret
  check_read_secret decode key m (ok secret) = (m, none)
  check_read_secret decode key m (err e) =
      elim (parse_jwks_secret decode (record { object = jwk_secret; data_of = [] })) [
        | ok old ↦ (m, none)
        | err bad ↦ update_jwk_secret key m
      ]

  unfoldable pub check_jwk_secret :
      (String → Option String) → Result String String → NamespacedName → ControlState S → End S
  unfolding check_read_secret
  check_jwk_secret decode key name m =
      if not (str_eq name.namespace w.namespace) || not (str_eq name.name jwk_secret_name)
      then (m, none)
      else check_read_secret decode key m (w.secrets.get jwk_secret (store m))

  -- The end of a create: an object that is already there is no error.
  abbrev pub created : ControlState S → S × Option ApiError → End S
  created m (st, none) = (with_store st m, none)
  created m (st, some already_exists) = (with_store st m, none)
  created m (st, some not_found) = (with_store st m, some (api_error not_found))
  created m (st, some (api_failed e)) = (with_store st m, some (api_error (api_failed e)))

  unfoldable pub create_jwks_secret : Result String String → ControlState S → End S
  create_jwks_secret (err e) m = (m, some (cannot_generate_key e))
  create_jwks_secret (ok key) m = created m (w.secrets.create (new_secret key) (store m))
