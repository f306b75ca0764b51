-- ===== src/Authz/Attributes.antt =====
-- The attributes of workloads that the policies are matched against (getSrcAttributes and
-- getDstAttributes of pkg/controlplane/authz/manager.go).
use Prim.Native.String.{◌++◌ as str_append}
use clusterlink.Common.{String, none, some, [], ◌∷◌, string_eq}
use clusterlink.Common.Maps.{Map, insert}
use clusterlink.Pdp.Matching.{WorkloadAttrs}
use clusterlink.Authz.Pods.{PodTable, get_pod_info_by_ip}

abbrev pub client_namespace_label : String
client_namespace_label = "client.clusterlink.net/namespace"

abbrev pub client_sa_label : String
client_sa_label = "client.clusterlink.net/service-account"

abbrev pub client_labels_prefix : String
client_labels_prefix = "client.clusterlink.net/labels."

abbrev pub service_name_label : String
service_name_label = "export.clusterlink.net/name"

abbrev pub service_namespace_label : String
service_namespace_label = "export.clusterlink.net/namespace"

abbrev pub service_labels_prefix : String
service_labels_prefix = "export.clusterlink.net/labels."

abbrev pub peer_name_label : String
peer_name_label = "peer.clusterlink.net/name"

abbrev pub peer_labels_prefix : String
peer_labels_prefix = "peer.clusterlink.net/labels."

-- `for k, v := range labels { attrs[prefix+k] = v }`
unfoldable pub add_labels : String → Map String String → WorkloadAttrs → WorkloadAttrs
add_labels prefix [] attrs = attrs
add_labels prefix ((k, v) ∷ rest) attrs =
    add_labels prefix rest (insert (str_append prefix k) v attrs)

-- `nil` for an address that belongs to no known pod.
unfoldable pub get_src_attributes : String → Map String String → PodTable → String → WorkloadAttrs
get_src_attributes peer_name peer_labels pods ip = elim (get_pod_info_by_ip ip pods) [
  | none ↦ []
  | some info ↦ add_labels peer_labels_prefix peer_labels (
      add_labels client_labels_prefix info.labels (
        insert client_sa_label info.service_account
          (insert client_namespace_label info.namespace (insert peer_name_label peer_name []))))
]

unfoldable pub get_dst_attributes :
    String → String → String → Map String String → Map String String → WorkloadAttrs
get_dst_attributes svc_name svc_ns peer_name svc_labels peer_labels =
    add_labels peer_labels_prefix peer_labels (
      add_labels service_labels_prefix svc_labels (
        insert peer_name_label peer_name
          (insert service_namespace_label svc_ns (insert service_name_label svc_name []))))
