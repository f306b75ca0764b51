-- ===== src/Xds/Names.antt =====
-- The names of pkg/controlplane/api/xds.go are different for different objects.
use Prim.Native.String.{◌++◌ as str_append}
use text.Mathlib.TextLemmas.{append_cancel_left}
use clusterlink.Common.{◌≡◌, ◌≢◌, ap, String, arith}
use clusterlink.Common.Texts.{chars, chars-append, Lacks, separated_inj, head_code}
use clusterlink.Crds.Names.{NamespacedName}
use clusterlink.Authz.Egress.{remote_peer_cluster_name, remote_peer_cluster_prefix}
use clusterlink.Authz.Ingress.{export_cluster_name, export_cluster_prefix}

pub remote_peer_cluster_name_inj :
    (a b : String) → remote_peer_cluster_name a ≡ remote_peer_cluster_name b → a ≡ b
unfolding remote_peer_cluster_name
remote_peer_cluster_name_inj a b q = append_cancel_left remote_peer_cluster_prefix a b q

pub export_cluster_name_inj :
    (a b : NamespacedName)
    → Lacks "/" a.namespace
    → Lacks "/" b.namespace
    → export_cluster_name a.name a.namespace ≡ export_cluster_name b.name b.namespace
    → a ≡ b
unfolding export_cluster_name
export_cluster_name_inj a b la lb q =
    let (same_namespace, same_name) =
      separated_inj a.namespace a.name b.namespace b.name la lb
        (append_cancel_left export_cluster_prefix _ _ q) in
    cc

pub peer_export_apart :
    (p : String) (k : NamespacedName)
    → remote_peer_cluster_name p ≢ export_cluster_name k.name k.namespace
unfolding remote_peer_cluster_name export_cluster_name
peer_export_apart p k q =
    let heads = ap (λ (t : String). head_code (chars t)) q in
    let left = ap head_code (chars-append remote_peer_cluster_prefix p) in
    let right =
      ap head_code
        (chars-append export_cluster_prefix (str_append k.namespace (str_append "/" k.name))) in
    omega (arith, heads, left, right)
