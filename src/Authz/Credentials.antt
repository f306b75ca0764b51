-- ===== src/Authz/Credentials.antt =====
-- The keys and certificates that the authorization manager holds, and its clients of the peers: AddPeer,
-- DeletePeer, SetPeerCertificates, addSecret and IsReady of pkg/controlplane/authz/manager.go.
use Prim.Native.String.{◌++◌ as str_append}
use clusterlink.Common.{
  ◌≡◌, refl, String, Bool, true, false, not, ◌||◌, Option, none, some, List, [], ◌∷◌, Result, ok,
  err, All, str_eq, if◌then◌else◌, string_eq,
}
use clusterlink.Common.Maps.{Map, insert, delete, All-insert}
use clusterlink.Crds.Peers.{Peer}
use clusterlink.Control.{Secret}
use clusterlink.Control.Secrets.{jwk_secret_name, parse_jwks_secret}

-- `peer_tls` and `jwk_key` are nil at the start.
pub record Credentials (Certificates Client Key : Type 0) : Type 0 where
  pub peer_tls : Option Certificates
  pub peer_name : String
  pub peer_client : Map String Client
  pub jwk_key : Option Key

-- `NewClient` with the client configuration of the certificates for a peer's name, `Peer` of a client,
-- `DNSNames` of the certificates, the Base64 decoder and `jwk.New`.
pub record Makers (Certificates Client Key : Type 0) : Type 0 where
  pub new_client : Peer → Certificates → String → Client
  pub peer_of : Client → Peer
  pub dns_names : Certificates → List String
  pub decode : String → Option String
  pub new_key : String → Result String Key

module _ {Certificates Client Key : Type 0} (w : Makers Certificates Client Key) where
  -- `none` is the panic at certificates that were not set.
  unfoldable pub add_peer :
      Peer → Credentials Certificates Client Key → Option (Credentials Certificates Client Key)
  add_peer pr c = elim c.peer_tls [
    | none ↦ none
    | some tls ↦
        some (record c { peer_client = insert pr.name (w.new_client pr tls pr.name) c.peer_client })
  ]

  unfoldable pub delete_peer :
      String → Credentials Certificates Client Key → Credentials Certificates Client Key
  delete_peer name c = record c { peer_client = delete name c.peer_client }

  -- The loop of SetPeerCertificates.
  unfoldable pub renewed : Certificates → Map String Client → Map String Client
  renewed tls [] = []
  renewed tls ((name, client) ∷ rest) =
      (name, w.new_client (w.peer_of client) tls name) ∷ renewed tls rest

  unfoldable pub set_peer_certificates :
      Certificates
      → Credentials Certificates Client Key
      → Result String (Credentials Certificates Client Key)
  unfolding renewed
  set_peer_certificates tls c = elim (w.dns_names tls) [
    | [] ↦ err "expected peer certificate to contain at least one DNS name"
    | name ∷ names ↦ ok (record c {
      peer_name = name;
      peer_tls = some tls;
      peer_client = renewed tls c.peer_client;
    })
  ]

  abbrev pub set_key :
      Result String Key
      → Credentials Certificates Client Key
      → Credentials Certificates Client Key × Option String
  set_key (err e) c = (c, some (str_append "unable to create JWK key: " e))
  set_key (ok key) c = (record c { jwk_key = some key }, none)

  -- After the secret of the signing key was parsed.
  abbrev pub use_key :
      Result String String
      → Credentials Certificates Client Key
      → Credentials Certificates Client Key × Option String
  use_key (err e) c = (c, some (str_append "cannot parse JWKS secret: " e))
  use_key (ok key) c = set_key (w.new_key key) c

  unfoldable pub add_secret :
      String
      → Secret
      → Credentials Certificates Client Key
      → Credentials Certificates Client Key × Option String
  add_secret namespace secret c =
      if not (str_eq secret.object.namespace namespace)
        || not (str_eq secret.object.name jwk_secret_name)
      then (c, none)
      else use_key (parse_jwks_secret w.decode secret) c

  unfoldable pub is_ready : Credentials Certificates Client Key → Bool
  is_ready c = elim c.jwk_key [ none ↦ false | some key ↦ true ]

  -- Every client was made with these certificates, for the name that it is stored under.
  abbrev pub AreCurrent : Certificates → Map String Client → Type 0
  AreCurrent tls clients =
      All (λ (e : String × Client). (pr : Peer) × (e.1 ≡ w.new_client pr tls e.0)) clients

  -- After SetPeerCertificates every client was made with the new certificates.
  pub renewed-AreCurrent :
      (tls : Certificates) (clients : Map String Client) → AreCurrent tls (renewed tls clients)
  unfolding renewed
  renewed-AreCurrent tls [] = tt
  renewed-AreCurrent tls ((name, client) ∷ rest) =
      ((w.peer_of client, refl), renewed-AreCurrent tls rest)

  -- To add and delete peers keeps all clients on the certificates that are set.
  pub add_peer-AreCurrent :
      (pr : Peer) (tls : Certificates) (clients : Map String Client)
      → AreCurrent tls clients
      → AreCurrent tls (insert pr.name (w.new_client pr tls pr.name) clients)
  add_peer-AreCurrent pr tls clients h =
      All-insert (λ (e : String × Client). (pr : Peer) × (e.1 ≡ w.new_client pr tls e.0)) pr.name
        (w.new_client pr tls pr.name) clients (pr, refl) h
