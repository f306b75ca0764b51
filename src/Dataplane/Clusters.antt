-- ===== src/Dataplane/Clusters.antt =====
-- The table of clusters of pkg/dataplane/server/dataplane.go, and handleClusters of
-- pkg/dataplane/client/fetcher.go, which makes the table what the control plane sent.
use clusterlink.Common.{
  String, Bool, true, Option, none, some, List, [], ◌∷◌, map, Result, ok, err, ◌>>=◌, string_eq,
}
use clusterlink.Common.Maps.{Map, lookup, insert, delete}
use clusterlink.Xds.{Cluster, LbEndpoint}
use clusterlink.Dataplane.{Dataplane, host_port}

-- `no_endpoint` is the panic at the first endpoint of a cluster that has none.
pub data ClusterError : Type 0 where
  unknown_cluster : String → ClusterError
  no_endpoint : ClusterError
  bad_hostname : String → ClusterError

abbrev pub first_endpoint : List LbEndpoint → Result ClusterError LbEndpoint
first_endpoint [] = err no_endpoint
first_endpoint (ep ∷ rest) = ok ep

-- The endpoint of a cluster that was looked up.
abbrev pub endpoint_in : String → Option Cluster → Result ClusterError LbEndpoint
endpoint_in name none = err (unknown_cluster name)
endpoint_in name (some c) = first_endpoint c.endpoints

module _ {Certificate Pool : Type 0} where
  abbrev pub endpoint_of : String → Dataplane Certificate Pool → Result ClusterError LbEndpoint
  endpoint_of name d = endpoint_in name (lookup name d.clusters)

  unfoldable pub get_cluster_target :
      String → Dataplane Certificate Pool → Result ClusterError String
  get_cluster_target name d = endpoint_of name d >>= λ ep. ok (host_port ep.address)

  unfoldable pub get_cluster_hostname :
      String → Dataplane Certificate Pool → Result ClusterError String
  get_cluster_hostname name d = endpoint_of name d >>= λ ep. ok ep.hostname

  -- `net.SplitHostPort`, with its error as a text.
  unfoldable pub get_cluster_host :
      (String → Result String (String × String))
      → String
      → Dataplane Certificate Pool
      → Result ClusterError String
  unfolding get_cluster_hostname
  get_cluster_host split_host_port name d = get_cluster_hostname name d >>= λ hostname.
      elim (split_host_port hostname) [ err e ↦ err (bad_hostname e) | ok parts ↦ ok parts.0 ]

  unfoldable pub add_cluster : Cluster → Dataplane Certificate Pool → Dataplane Certificate Pool
  add_cluster c d = record d { clusters = insert c.name c d.clusters }

  unfoldable pub remove_cluster : String → Dataplane Certificate Pool → Dataplane Certificate Pool
  remove_cluster name d = record d { clusters = delete name d.clusters }

  -- The second loop of handleClusters, over the names in the table.
  unfoldable pub remove_absent :
      List String → Map String Bool → Dataplane Certificate Pool → Dataplane Certificate Pool
  unfolding remove_cluster
  remove_absent [] seen d = d
  remove_absent (name ∷ names) seen d =
      remove_absent names seen
        (elim (lookup name seen) [ some b ↦ d | none ↦ remove_cluster name d ])

  abbrev pub table_names : Dataplane Certificate Pool → List String
  table_names d = map (λ (e : String × Cluster). e.0) d.clusters

  -- The first loop, with the map of the names seen, and what follows it; `unmarshal` is
  -- `anypb.UnmarshalTo`.
  unfoldable pub add_clusters :
      {Any : Type 0}
      → (Any → Result String Cluster)
      → List Any
      → Map String Bool
      → Dataplane Certificate Pool
      → Dataplane Certificate Pool × Option String
  unfolding add_cluster remove_absent
  add_clusters unmarshal [] seen d = (remove_absent (table_names d) seen d, none)
  add_clusters unmarshal (r ∷ rs) seen d = elim (unmarshal r) [
    | err e ↦ (d, some e)
    | ok c ↦ add_clusters unmarshal rs (insert c.name true seen) (add_cluster c d)
  ]

  unfoldable pub handle_clusters :
      {Any : Type 0}
      → (Any → Result String Cluster)
      → List Any
      → Dataplane Certificate Pool
      → Dataplane Certificate Pool × Option String
  unfolding add_clusters
  handle_clusters unmarshal resources d = add_clusters unmarshal resources [] d
