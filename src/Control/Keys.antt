-- ===== src/Control/Keys.antt =====
-- What becomes of the secret of the signing key, and how it reaches the authorization manager.
use clusterlink.Common.{
  ◌≡◌, ◌≢◌, refl, ap, ◌∙◌, inl, inr, String, true, not, ◌||◌, Option, none, some, List, [], ◌∷◌,
  Result, ok, err, eq_iff, str_eq, Bool-cases, string_eq,
}
use clusterlink.Common.Maps.{lookup}
use clusterlink.Crds.Names.{NamespacedName}
use clusterlink.Kube.{ApiError, not_found, already_exists, api_failed, Objects}
use clusterlink.Control.{Secret, Setup, ControlState, store}
use clusterlink.Control.Secrets.{
  jwk_secret, jwk_secret_name, new_secret, parse_jwks_secret, check_read_secret, update_jwk_secret,
  check_jwk_secret, created, create_jwks_secret,
}
use clusterlink.Authz.Credentials.{Credentials, Makers, use_key, add_secret, is_ready}

-- The API server's documented behaviour: what is not there cannot be updated.
abbrev pub UpdatesExisting : {S : Type 0} → Objects S Secret → Type 0
UpdatesExisting {S} client =
    (s : Secret) (st : S)
    → client.get s.object st ≡ err not_found
    → client.update s st ≡ (st, some not_found)

-- The same for a create: it stores what it creates, and what is not there does not exist already.
pub record CreatesMissing {S : Type 0} (client : Objects S Secret) : Type 0 where
  pub stores :
      (s : Secret) (st : S)
      → (client.create s st).1 ≡ none
      → client.get s.object (client.create s st).0 ≡ ok s
  pub is_new :
      (s : Secret) (st : S)
      → client.get s.object st ≡ err not_found
      → (client.create s st).1 ≢ some already_exists

-- An event for a secret, with the key that is generated if one is.
pub record KeyEvent : Type 0 where
  pub name : NamespacedName
  pub key : String

module _ {S : Type 0} (w : Setup S) (decode : String → Option String) where
  -- What is read where the API server answers: a secret, or that there is none.
  abbrev pub read_as : Option Secret → Result ApiError Secret
  read_as none = err not_found
  read_as (some secret) = ok secret

  unfoldable pub handle_key_events : List KeyEvent → ControlState S → ControlState S
  handle_key_events [] m = m
  handle_key_events (e ∷ events) m =
      handle_key_events events (check_jwk_secret w decode (ok e.key) e.name m).0

  check_read_same :
      (key : String) (m : ControlState S) (o : Option Secret)
      → UpdatesExisting w.secrets
      → w.secrets.get (jwk_secret w) (store m) ≡ read_as o
      → (check_read_secret w decode (ok key) m (read_as o)).0 ≡ m
  unfolding check_read_secret parse_jwks_secret update_jwk_secret lookup
  check_read_same key m (some secret) law q = refl
  check_read_same key m none law q = rw (law (new_secret w key) (store m) q) refl

  check_same :
      (key : String) (name : NamespacedName) (m : ControlState S) (o : Option Secret)
      → UpdatesExisting w.secrets
      → w.secrets.get (jwk_secret w) (store m) ≡ read_as o
      → (check_jwk_secret w decode (ok key) name m).0 ≡ m
  unfolding check_jwk_secret
  check_same key name m o law q =
      elim (Bool-cases
        (not (str_eq name.namespace w.namespace) || not (str_eq name.name jwk_secret_name))) [
          | inl other ↦ rw (other, check_jwk_secret) refl
          | inr own ↦
              rw (own, check_jwk_secret)
                (ap (λ (r : Result ApiError Secret). (check_read_secret w decode (ok key) m r).0) q
                  ∙ check_read_same key m o law q)
        ]

  -- Where the API server answers the Get of the signing key's secret with a secret, whatever that holds,
  -- or with not found, no number of events for secrets changes anything, whatever keys are generated: a
  -- secret without a key is never replaced, and a missing one is never created.
  pub jwk_secret_not_restored :
      (events : List KeyEvent) (m : ControlState S) (o : Option Secret)
      → UpdatesExisting w.secrets
      → w.secrets.get (jwk_secret w) (store m) ≡ read_as o
      → handle_key_events events m ≡ m
  unfolding handle_key_events
  jwk_secret_not_restored [] m o law q = refl
  jwk_secret_not_restored (e ∷ events) m o law q =
      ap (handle_key_events events) (check_same e.key e.name m o law q)
      ∙ jwk_secret_not_restored events m o law q

module _ {S Certificates Client Key : Type 0} (w : Setup S)
    (k : Makers Certificates Client Key) where
  created_stored :
      (m : ControlState S) (r : S × Option ApiError) (secret : Secret)
      → r.1 ≢ some already_exists
      → (r.1 ≡ none → w.secrets.get (jwk_secret w) r.0 ≡ ok secret)
      → (created w m r).1 ≡ none
      → w.secrets.get (jwk_secret w) (store (created w m r).0) ≡ ok secret
  created_stored m (st, none) secret new set h = set refl
  created_stored m (st, some already_exists) secret new set h = absurd (new refl)
  created_stored m (st, some not_found) secret new set h = absurd (cc h)
  created_stored m (st, some (api_failed e)) secret new set h = absurd (cc h)

  parse_new :
      (text raw : String)
      → k.decode text ≡ some raw
      → parse_jwks_secret k.decode (new_secret w text) ≡ ok raw
  unfolding parse_jwks_secret lookup
  parse_new text raw q = rw (q, parse_jwks_secret) refl

  -- Where the secret of the signing key is not there and is created without an error, and its text
  -- is that of a key, the store has a secret for which the authorization manager sets this key and is
  -- ready, whatever it had before.
  pub created_key_used :
      (text raw : String) (key : Key) (m : ControlState S) (c : Credentials Certificates Client Key)
      → CreatesMissing w.secrets
      → w.secrets.get (jwk_secret w) (store m) ≡ err not_found
      → k.decode text ≡ some raw
      → k.new_key raw ≡ ok key
      → (create_jwks_secret w (ok text) m).1 ≡ none
      → (secret : Secret) × (w.secrets.get
            (jwk_secret w)
            (store (create_jwks_secret w (ok text) m).0)
          ≡ ok secret)
        × (add_secret k w.namespace secret c ≡ (record c { jwk_key = some key }, none))
        × (is_ready k (add_secret k w.namespace secret c).0 ≡ true)
  unfolding create_jwks_secret add_secret is_ready
  created_key_used text raw key m c law missing text_of key_of h =
      let secret = new_secret w text in
      let set : add_secret k w.namespace secret c ≡ (record c { jwk_key = some key }, none) =
        rw ((eq_iff w.namespace w.namespace).1 refl) (
          ap (λ (r : Result String String). use_key k r c) (parse_new text raw text_of)
          ∙ rw key_of refl) in
      (
        secret,
        created_stored m (w.secrets.create secret (store m)) secret
            (law.is_new secret (store m) missing) (law.stores secret (store m)) h,
        set,
        ap (λ (r : Credentials Certificates Client Key × Option String). is_ready k r.0) set,
      )
