-- ===== src/Samples/Stores.antt =====
-- A store of services that keeps what is written, with one service of somebody else.
use clusterlink.Common.{◌≡◌, refl, String, Option, none, some, [], ◌∷◌, Result, ok, err, string_eq}
use clusterlink.Common.Maps.{Map, lookup, insert, delete, lookup-insert_self}
use clusterlink.Crds.Names.{NamespacedName, name_eq}
use clusterlink.Kube.{ApiError, not_found, Objects}
use clusterlink.Services.{Service, ServiceState, add_import_service, put_service}
use clusterlink.Services.Desired.{KeepsWrites, IsDesired, add_import_service-IsDesired}
use clusterlink.Samples.World.{object}

abbrev Store : Type 0
Store = Map NamespacedName Service

abbrev found : Option Service → Result ApiError Service
found none = err not_found
found (some s) = ok s

abbrev client : Objects Store Service
client = record {
  get = λ k st. found (lookup k st);
  list = λ p st. ok [];
  create = λ s st. (insert s.object s st, none);
  update_status = λ s st. (st, none);
  update = λ s st. (insert s.object s st, none);
  remove = λ k st. (delete k st, none);
}

written_found : (s : Service) (st : Store) → found (lookup s.object (insert s.object s st)) ≡ ok s
written_found s st = rw (lookup-insert_self s.object s st) refl

client-KeepsWrites : KeepsWrites client
client-KeepsWrites = record {
  keeps_create = λ s st h. written_found s st;
  keeps_update = λ s st h. written_found s st;
}

abbrev service : String → Service
service name = record {
  object = object name;
  labels = [];
  service_type = "ClusterIP";
  external_name = "";
  selector = ("app", "cl-dataplane") ∷ [];
  ports = record { protocol = "TCP"; port = 80; target_port = 1024 } ∷ [];
}

abbrev state : ServiceState Store
state = record { store = (object "theirs", service "theirs") ∷ []; service_to_import = [] }

added : (add_import_service client (object "web") (service "web") state).1 ≡ none
unfolding add_import_service put_service lookup
added = refl

abbrev no_entries : Map String String
no_entries = []

one_key : lookup "app" no_entries ≡ none
unfolding lookup
one_key = refl

add_import_service-IsDesired_example :
    IsDesired client
      (object "web")
      (service "web")
      state
      (add_import_service client (object "web") (service "web") state).0.store
add_import_service-IsDesired_example =
    add_import_service-IsDesired client (object "web") (service "web") state (one_key, tt)
      client-KeepsWrites added
