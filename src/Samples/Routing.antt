-- ===== src/Samples/Routing.antt =====
-- A history of peers and exports through the control plane's caches to the data plane.
use clusterlink.Common.{
  ◌≡◌, refl, inl, String, true, Option, none, some, List, [], ◌∷◌, Result, ok, err, string_eq,
}
use clusterlink.Common.Maps.{Map, lookup, insert, delete, lookup-insert, lookup-delete}
use clusterlink.Crds.Peers.{Peer}
use clusterlink.Crds.Imports.{Import}
use clusterlink.Authz.Egress.{remote_peer_cluster_name}
use clusterlink.Authz.Server.{Authorizer}
use clusterlink.Xds.{
  Cluster, Caches, LinearCache, RawCertData, peer_cluster, import_listener, certificate_of,
  validation_of, add_peer, delete_peer, Listener,
}
use clusterlink.Xds.Served.{
  ServesClusters, RouteEvent, peer_added, peer_deleted, Serves, routes_after, run_events,
  AreHandled, history-Serves,
}
use clusterlink.Dataplane.{Dataplane, new_dataplane}
use clusterlink.Dataplane.Clusters.{handle_clusters, add_cluster}
use clusterlink.Dataplane.Listeners.{
  blocked, handle_listeners, create_listener, listener_name, put_listener,
}
use clusterlink.Dataplane.Egress.{get_egress_auth}
use clusterlink.Dataplane.Snapshots.{decode_all, latest, handle_clusters-latest}
use clusterlink.Dataplane.Routes.{no_routes, peer_target, dialled, dialled-peer}
use clusterlink.Dataplane.Granted.{call, as_granted, get_egress_auth-import}
use clusterlink.Dataplane.Ends.{failed_listener_blocks}
use clusterlink.Dataplane.Certificates.{handle, tls_for, handle_secrets-certificates}
use clusterlink.Samples.World.{object}

abbrev Served : Type 0
Served = Map String Cluster

abbrev idle : {R : Type 0} → LinearCache Served R
idle = record { update_resource = λ n r s. (s, none); delete_resource = λ n s. (s, none) }

abbrev caches : Caches Served
caches = record {
  clusters = record {
    update_resource = λ n c s. (insert n c s, none);
    delete_resource = λ n s. (delete n s, none);
  };
  listeners = idle;
  secrets = idle;
  resolver_error = none;
  tls_error = λ t. none;
  proxy_error = λ p. none;
}

abbrev served : String → Served → Option Cluster
served n s = lookup n s

caches-ServesClusters : ServesClusters caches served
caches-ServesClusters = record {
  after_update = λ name k c s h. lookup-insert name k c s;
  after_delete = λ name k s h. lookup-delete name k s;
}

abbrev peer : String → Peer
peer name = record {
  name = name;
  gateways = record { host = "10.1.1.1"; port = 30443 } ∷ [];
  conditions = [];
  labels = [];
}

abbrev events : List RouteEvent
events = peer_added (peer "east") ∷ peer_added (peer "west") ∷ peer_deleted "west" ∷ []

handled : AreHandled caches served events []
unfolding add_peer delete_peer
handled = (refl, (refl, (refl, tt)))

nothing_served : Serves caches served no_routes []
unfolding lookup
nothing_served = ((λ p. refl), λ k plain. refl)

history-Serves_example :
    Serves caches served (routes_after events no_routes) (run_events caches served events [])
history-Serves_example =
    history-Serves caches served events no_routes [] caches-ServesClusters (tt, (tt, (tt, tt)))
      handled nothing_served

abbrev plane : Dataplane String String
plane = new_dataplane String String

abbrev unmarshal : {A : Type 0} → A → Result String A
unmarshal c = ok c

abbrev snapshot : List Cluster
snapshot = peer_cluster (peer "east") ∷ []

decoded : decode_all unmarshal snapshot ≡ ok snapshot
unfolding decode_all
decoded = refl

sent : (n : String) → latest n snapshot ≡ served n (run_events caches served events [])
unfolding latest lookup insert delete add_peer delete_peer remote_peer_cluster_name
sent n = refl

handle_clusters-latest_example :
    ((handle_clusters unmarshal snapshot (add_cluster (peer_cluster (peer "old")) plane)).1 ≡ none)
    × ((n : String)
        → lookup n
            (handle_clusters unmarshal snapshot
              (add_cluster (peer_cluster (peer "old")) plane)).0.clusters
          ≡ latest n snapshot)
handle_clusters-latest_example =
    handle_clusters-latest unmarshal snapshot snapshot
      (add_cluster (peer_cluster (peer "old")) plane) decoded

dialled-peer_example :
    dialled (handle_clusters unmarshal snapshot plane).0 (remote_peer_cluster_name "east")
    ≡ peer_target
        (remote_peer_cluster_name "east")
        (lookup "east" (routes_after events no_routes).peers)
dialled-peer_example =
    dialled-peer caches served unmarshal events [] snapshot snapshot plane "east"
      caches-ServesClusters (tt, (tt, (tt, tt))) handled nothing_served decoded sent

abbrev web : Import
web = record {
  object = object "web";
  labels = [];
  spec = record { port = 80; target_port = 1031; sources = []; lb_scheme = "" };
  conditions = [];
}

abbrev granting : Authorizer
granting = record {
  authorize_egress = λ r.
      ok (record { allowed = true; remote_peer_cluster = "remote-peer-east"; access_token = "t" });
  authorize_ingress = λ r. err "no";
  parse_authorization_header = λ t. err "no";
  decode = λ t. err "no";
  peer_labels = "";
}

get_egress_auth-import_example :
    get_egress_auth (call granting) (listener_name (import_listener web)) "10.0.0.7"
    ≡ as_granted granting "default" "web"
        (granting.authorize_egress (record { import_name = object "web"; ip = "10.0.0.7" }))
get_egress_auth-import_example =
    get_egress_auth-import granting web "10.0.0.7"
      (refl, (refl, (refl, (refl, (refl, (refl, (refl, tt)))))))

abbrev listening : Dataplane String String
listening = put_listener (import_listener web) plane

failed_listener_blocks_example :
    handle_listeners {Any = Listener} unmarshal [] (
      create_listener
        (λ target. some "address already in use")
        (listener_name (import_listener web))
        (import_listener web).address
        listening)
    ≡ blocked
unfolding new_dataplane insert delete
failed_listener_blocks_example =
    failed_listener_blocks {Message = Listener} unmarshal (λ target. some "address already in use")
      (listener_name (import_listener web)) "address already in use" (import_listener web).address
      listening refl (inl refl)

abbrev raw : RawCertData
raw = record { certificate = "cert"; key = "key"; ca = "ca" }

handle_secrets-certificates_example :
    handle
      (λ c k. ok c)
      (λ ca. some ca)
      unmarshal
      raw
      "cert"
      "ca"
      (certificate_of raw ∷ validation_of raw ∷ [])
      plane
    ≡ (tls_for "cert" "ca" plane, none)
handle_secrets-certificates_example =
    handle_secrets-certificates (λ c k. ok c) (λ ca. some ca) unmarshal raw "cert" "ca"
      (certificate_of raw) (validation_of raw) plane refl refl (inl (refl, refl))
