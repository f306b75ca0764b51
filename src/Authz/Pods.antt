-- ===== src/Authz/Pods.antt =====
-- The pods that the manager knows, and their addresses (addPod, deletePod, getPodInfoByIP of
-- pkg/controlplane/authz/manager.go). Each method holds `podLock`, so it is one step.
use clusterlink.Common.{
  String, not, Option, none, some, List, [], ◌∷◌, str_eq, if◌then◌else◌, string_eq,
}
use clusterlink.Common.Maps.{Map, lookup, insert, delete}
use clusterlink.Crds.Names.{NamespacedName, same_name, name_eq}

pub record PodInfo : Type 0 where
  pub name : String
  pub namespace : String
  pub service_account : String
  pub labels : Map String String

-- What the program reads of `v1.Pod`.
pub record Pod : Type 0 where
  pub object : NamespacedName
  pub labels : Map String String
  pub service_account : String
  pub pod_ips : List String
  pub host_ip : String

pub record PodTable : Type 0 where
  pub ip_to_pod : Map String NamespacedName
  pub pod_list : Map NamespacedName PodInfo

unfoldable pub new_pod_table : PodTable
new_pod_table = record { ip_to_pod = []; pod_list = [] }

-- The loop of `deletePod`, which deletes while it ranges over the map.
unfoldable pub drop_ips : NamespacedName → Map String NamespacedName → Map String NamespacedName
drop_ips pod [] = []
drop_ips pod ((ip, owner) ∷ rest) =
    let rest' = drop_ips pod rest in if same_name owner pod then rest' else (ip, owner) ∷ rest'

unfoldable pub delete_pod : NamespacedName → PodTable → PodTable
delete_pod pod t = record { ip_to_pod = drop_ips pod t.ip_to_pod; pod_list = delete pod t.pod_list }

unfoldable pub add_ips :
    NamespacedName → String → List String → Map String NamespacedName → Map String NamespacedName
add_ips pod host [] m = m
add_ips pod host (ip ∷ ips) m =
    add_ips pod host ips (if not (str_eq ip host) then insert ip pod m else m)

unfoldable pub add_pod : Pod → PodTable → PodTable
add_pod pod t = record {
  ip_to_pod = add_ips pod.object pod.host_ip pod.pod_ips t.ip_to_pod;
  pod_list =
      insert pod.object
        (record {
          name = pod.object.name;
          namespace = pod.object.namespace;
          service_account = pod.service_account;
          labels = pod.labels;
        })
        t.pod_list;
}

unfoldable pub get_pod_info_by_ip : String → PodTable → Option PodInfo
get_pod_info_by_ip ip t = elim (lookup ip t.ip_to_pod) [
  | none ↦ none
  | some pod ↦ lookup pod t.pod_list
]
