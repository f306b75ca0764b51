-- ===== src/Dataplane/Routes.antt =====
-- From a peer of the control plane to the address that the data plane dials.
use Prim.Native.String.{◌++◌ as str_append}
use clusterlink.Common.{
  ◌≡◌, refl, ap, ◌∙◌, String, Option, none, some, List, [], ◌∷◌, map, Result, ok, err, ◌>>=◌, All,
  string_eq,
}
use clusterlink.Common.Maps.{lookup}
use clusterlink.Crds.Peers.{Peer, Endpoint}
use clusterlink.Xds.{Cluster, Caches, lb_endpoint, peer_cluster}
use clusterlink.Xds.Served.{
  ServesClusters, RouteEvent, Routes, IsPlain, AreHandled, Serves, run_events, routes_after,
  history-Serves, as_cluster,
}
use clusterlink.Authz.Egress.{remote_peer_cluster_name}
use clusterlink.Dataplane.{Dataplane, host_port}
use clusterlink.Dataplane.Clusters.{
  ClusterError, unknown_cluster, no_endpoint, first_endpoint, endpoint_in, get_cluster_target,
  get_cluster_hostname, handle_clusters,
}
use clusterlink.Dataplane.Snapshots.{decode_all, latest, handle_clusters-latest}

abbrev pub no_routes : Routes
no_routes = record { peers = []; exports = [] }

-- What the data plane dials for a peer: its first gateway, and its name as the host name.
abbrev pub gateway_target : String → List Endpoint → Result ClusterError (String × String)
gateway_target hostname [] = err no_endpoint
gateway_target hostname (g ∷ rest) =
    ok (host_port (record { address = g.host; port_value = g.port }), hostname)

abbrev pub peer_target : String → Option Peer → Result ClusterError (String × String)
peer_target cluster none = err (unknown_cluster cluster)
peer_target cluster (some p) = gateway_target (str_append p.name ":443") p.gateways

-- Both answers about a cluster.
abbrev pub both :
    Result ClusterError String → Result ClusterError String → Result ClusterError (String × String)
both (err e) b = err e
both (ok a) (err e) = err e
both (ok a) (ok b) = ok (a, b)

both_first :
    (hostname : String) (gs : List Endpoint)
    → (let ep = first_endpoint (map (lb_endpoint hostname) gs) in
        both (ep >>= λ e. ok (host_port e.address)) (ep >>= λ e. ok e.hostname))
      ≡ gateway_target hostname gs
both_first hostname [] = refl
both_first hostname (g ∷ gs) = refl

module _ {Certificate Pool : Type 0} (d : Dataplane Certificate Pool) where
  abbrev pub dialled : String → Result ClusterError (String × String)
  dialled cluster = both (get_cluster_target cluster d) (get_cluster_hostname cluster d)

  abbrev looked_up : String → Option Cluster → Result ClusterError (String × String)
  looked_up cluster o =
      let ep = endpoint_in cluster o in
      both (ep >>= λ e. ok (host_port e.address)) (ep >>= λ e. ok e.hostname)

  targets :
      (cluster : String) (o : Option Peer)
      → lookup cluster d.clusters ≡ as_cluster peer_cluster o
      → dialled cluster ≡ peer_target cluster o
  unfolding get_cluster_target get_cluster_hostname
  targets cluster none h = ap (looked_up cluster) h
  targets cluster (some p) h =
      ap (looked_up cluster) h ∙ both_first (str_append p.name ":443") p.gateways

module _ {S Any Certificate Pool : Type 0} (w : Caches S) (served : String → S → Option Cluster)
    (unmarshal : Any → Result String Cluster) where
  -- Where the handlers of a history of peers and exports returned no error, and the data plane gets all
  -- clusters that the caches then serve, it dials for a peer the first gateway of the peer as it was
  -- added last, under the peer's name, and it knows no cluster for a peer that was deleted or never
  -- added, whatever was in its table before.
  pub dialled-peer :
      (es : List RouteEvent) (s : S) (rs : List Any) (cs : List Cluster)
      (d : Dataplane Certificate Pool) (p : String)
      → ServesClusters w served
      → All IsPlain es
      → AreHandled w served es s
      → Serves w served no_routes s
      → decode_all unmarshal rs ≡ ok cs
      → ((n : String) → latest n cs ≡ served n (run_events w served es s))
      → dialled (handle_clusters unmarshal rs d).0 (remote_peer_cluster_name p)
        ≡ peer_target (remote_peer_cluster_name p) (lookup p (routes_after es no_routes).peers)
  dialled-peer es s rs cs d p law plain handled empty decoded sent =
      let history = history-Serves w served es no_routes s law plain handled empty in
      targets (handle_clusters unmarshal rs d).0 (remote_peer_cluster_name p)
        (lookup p (routes_after es no_routes).peers)
        ((handle_clusters-latest unmarshal rs cs d decoded).1 (remote_peer_cluster_name p)
          ∙ sent (remote_peer_cluster_name p)
          ∙ history.0 p)
