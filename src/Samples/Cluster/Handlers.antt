-- ===== src/Samples/Cluster/Handlers.antt =====
-- The handlers of the control manager on the store with tables.
use clusterlink.Common.{
  ℕ, ◌≡◌, refl, ap, String, true, Option, none, some, List, [], ◌∷◌, ok, err, arith, eq_iff,
  if◌then◌else◌, ◌==◌, ℕ_eq,
}
use clusterlink.Common.Maps.{lookup, insert, lookup-insert_self}
use clusterlink.Crds.Names.{NamespacedName, name_eq}
use clusterlink.Crds.Imports.{Import}
use clusterlink.Kube.{not_found}
use clusterlink.Ports.{
  lease, new_port_manager, get_random_free_port, random_tries, lease_with_random_port,
}
use clusterlink.Ports.Consistency.{IsConsistent, new-IsConsistent}
use clusterlink.Services.{Service, add_import_service, put_service}
use clusterlink.Slices.{EndpointSlice}
use clusterlink.Control.{Secret, ControlState, served, and_then, system_service_name, store}
use clusterlink.Control.Names.{slice_name, parse_name}
use clusterlink.Control.Names.RoundTrip.{parse_name-slice_name}
use clusterlink.Control.Imports.{add_import, delete_import, system_added, with_target_port}
use clusterlink.Control.Secrets.{jwk_secret, create_jwks_secret}
use clusterlink.Control.Events.{service_event, check_export_service}
use clusterlink.Control.Leasing.{add_import-IsConsistent}
use clusterlink.Control.Releases.{delete_import-lease, failed_update_frees}
use clusterlink.Control.Keys.{
  UpdatesExisting, CreatesMissing, KeyEvent, handle_key_events, jwk_secret_not_restored,
  created_key_used,
}
use clusterlink.Authz.Credentials.{Credentials, Makers, add_secret, is_ready}
use clusterlink.Control.Watch.{system_service_watched}
use clusterlink.Samples.World.{object}
use clusterlink.Samples.Cluster.{Db, setup, manager, found, replaced}

abbrev web : Import
web = record {
  object = object "web";
  labels = ("import.clusterlink.net/merge", "true") ∷ [];
  spec = record { port = 80; target_port = 0; sources = []; lb_scheme = "" };
  conditions = [];
}

abbrev web_service : Service
web_service = record {
  object = object "web";
  labels = [];
  service_type = "ClusterIP";
  external_name = "";
  selector = [];
  ports = [];
}

abbrev dataplane_slice : String → EndpointSlice
dataplane_slice name = record {
  object = record { namespace = "system"; name = name };
  address_type = "IPv4";
  labels = ("kubernetes.io/service-name", "clusterlink") ∷ [];
  endpoints = [];
  ports = [];
}

abbrev key_secret : Secret
key_secret = record { object = jwk_secret setup; data_of = [] }

abbrev db : Db
db = record {
  services = (object "web", web_service) ∷ [];
  imports = (object "web", web) ∷ [];
  exports = [];
  slices =
      ((dataplane_slice "dp1").object, dataplane_slice "dp1")
      ∷ ((dataplane_slice "dp2").object, dataplane_slice "dp2")
      ∷ [];
  secrets = (jwk_secret setup, key_secret) ∷ [];
}

abbrev empty_db : Db
empty_db = record { services = []; imports = []; exports = []; slices = []; secrets = [] }

abbrev draws : ℕ → ℕ
draws i = 7

parse_name-slice_name_example : parse_name (slice_name "web-1" "dp-2") ≡ some ("web-1", "dp-2")
parse_name-slice_name_example =
    parse_name-slice_name "web-1" "dp-2" (λ q. ground (arith, eq_iff "web-1" ""))
      (λ q. ground (arith, eq_iff "dp-2" "")) (omega arith)

free : lookup (get_random_free_port new_port_manager draws) new_port_manager.leases_by_port ≡ none
unfolding new_port_manager lookup get_random_free_port random_tries
free = refl

add_import-IsConsistent_example : IsConsistent (add_import setup draws web (manager db)).0.ports
add_import-IsConsistent_example =
    add_import-IsConsistent setup draws web (manager db) new-IsConsistent free

delete_import-lease_example :
    (lookup (object "web") (delete_import setup (object "web") (manager db)).0.ports.leases_by_name
      ≡ (if object "web" == object "web"
          then none
          else lookup (object "web") (manager db).ports.leases_by_name))
    × IsConsistent (delete_import setup (object "web") (manager db)).0.ports
delete_import-lease_example =
    delete_import-lease setup (object "web") (object "web") (manager db) new-IsConsistent

leased : (lease draws (object "web") 0 new_port_manager).1 ≡ ok 1031
unfolding lease lookup new_port_manager get_random_free_port random_tries lease_with_random_port
leased = refl

refused : (setup.imports.update (with_target_port 1031 web) empty_db).1 ≡ some not_found
unfolding lookup
refused = refl

failed_update_frees_example :
    lookup (object "web") (add_import setup draws web (manager empty_db)).0.ports.leases_by_name
    ≡ none
failed_update_frees_example =
    failed_update_frees setup draws web (manager empty_db) 1031 not_found refl leased refused

abbrev put : EndpointSlice → Db → Db
put s st = record st { slices = insert s.object s st.slices }

abbrev dataplane_slices : List EndpointSlice
dataplane_slices = dataplane_slice "dp1" ∷ dataplane_slice "dp2" ∷ []

secrets-UpdatesExisting : UpdatesExisting setup.secrets
secrets-UpdatesExisting s st h = missing (lookup s.object st.secrets) h
  where
    missing :
        (o : Option Secret)
        → found o ≡ err not_found
        → replaced (λ s st. record st { secrets = insert s.object s st.secrets }) s st o
          ≡ (st, some not_found)
    missing none q = refl
    missing (some old) q = absurd (cc q)

read : setup.secrets.get (jwk_secret setup) db ≡ ok key_secret
unfolding lookup
read = refl

abbrev key_events : List KeyEvent
key_events =
    record { name = jwk_secret setup; key = "a2V5" }
    ∷ record { name = object "other"; key = "a2V5" }
    ∷ []

jwk_secret_not_restored_example :
    handle_key_events setup (λ text. none) key_events (manager db) ≡ manager db
jwk_secret_not_restored_example =
    jwk_secret_not_restored setup (λ text. none) key_events (manager db) (some key_secret)
      secrets-UpdatesExisting read

abbrev makers : Makers ℕ ℕ String
makers = record {
  new_client = λ pr tls name. tls;
  peer_of = λ client. record { name = "east"; gateways = []; conditions = []; labels = [] };
  dns_names = λ tls. [];
  decode = λ text. some "key";
  new_key = λ raw. ok raw;
}

abbrev no_key : Credentials ℕ ℕ String
no_key = record { peer_tls = none; peer_name = ""; peer_client = []; jwk_key = none }

secrets-CreatesMissing : CreatesMissing setup.secrets
secrets-CreatesMissing = record {
  stores = λ s st h. ap found (lookup-insert_self s.object s st.secrets);
  is_new = λ s st h q. cc q;
}

no_secret : setup.secrets.get (jwk_secret setup) (store (manager empty_db)) ≡ err not_found
unfolding lookup
no_secret = refl

key_created : (create_jwks_secret setup (ok "a2V5") (manager empty_db)).1 ≡ none
unfolding create_jwks_secret
key_created = refl

created_key_used_example :
    (secret : Secret) × (setup.secrets.get
        (jwk_secret setup)
        (store (create_jwks_secret setup (ok "a2V5") (manager empty_db)).0)
      ≡ ok secret)
    × (add_secret makers "system" secret no_key ≡ (record no_key { jwk_key = some "key" }, none))
    × (is_ready makers (add_secret makers "system" secret no_key).0 ≡ true)
created_key_used_example =
    created_key_used setup makers "a2V5" "key" "key" (manager empty_db) no_key
      secrets-CreatesMissing no_secret refl refl key_created

abbrev watching : ControlState Db
watching = (served (manager db) (system_added setup web (manager db))).0

abbrev watched : NamespacedName
watched = record { namespace = "system"; name = system_service_name setup (object "web") }

no_own_import : setup.imports.get watched (store watching) ≡ err not_found
unfolding lookup insert add_import_service put_service system_service_name
no_own_import = refl

web_found : setup.imports.get (object "web") (store watching) ≡ ok web
unfolding lookup insert add_import_service put_service system_service_name
web_found = refl

system_service_watched_example :
    service_event setup draws draws watched watching
    ≡ and_then (add_import setup draws web watching) (check_export_service setup watched)
system_service_watched_example =
    system_service_watched setup web (manager db) draws draws web
      (λ q. ground (arith, eq_iff "default" "system")) no_own_import web_found
