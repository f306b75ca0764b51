-- ===== src/Xds/Served.antt =====
-- A history of peers and exports, and the clusters that the caches serve after it.
use clusterlink.Common.{
  ◌≡◌, refl, sym, ap, ◌∙◌, inl, inr, String, Bool, true, false, Option, none, some, List, [], ◌∷◌,
  if◌then◌else◌, str_eq, eq_iff, arith, All, ◌==◌, string_eq, Option-cases, Bool-cases,
}
use clusterlink.Common.Maps.{Map, lookup, insert, delete, lookup-insert, lookup-delete}
use clusterlink.Common.Texts.{Lacks}
use clusterlink.Crds.Names.{NamespacedName, same_name_iff, name_eq}
use clusterlink.Crds.Peers.{Peer, Export}
use clusterlink.Authz.Egress.{remote_peer_cluster_name}
use clusterlink.Authz.Ingress.{export_cluster_name}
use clusterlink.Xds.{
  Cluster, Caches, peer_cluster, export_cluster, add_peer, delete_peer, add_export, delete_export,
  tls_context,
}
use clusterlink.Xds.Names.{remote_peer_cluster_name_inj, export_cluster_name_inj, peer_export_apart}

-- The documented behaviour of a cache: `served` is the resource of a name, which an update sets and a
-- delete takes away, with all others as before.
pub record ServesClusters {S : Type 0} (w : Caches S) (served : String → S → Option Cluster)
    : Type 0 where
  pub after_update :
      (name k : String) (c : Cluster) (s : S)
      → (w.clusters.update_resource name c s).1 ≡ none
      → served k (w.clusters.update_resource name c s).0
        ≡ (if str_eq name k then some c else served k s)
  pub after_delete :
      (name k : String) (s : S)
      → (w.clusters.delete_resource name s).1 ≡ none
      → served k (w.clusters.delete_resource name s).0
        ≡ (if str_eq name k then none else served k s)

-- What the handlers of the peer and export controllers are called for.
pub data RouteEvent : Type 0 where
  peer_added : Peer → RouteEvent
  peer_deleted : String → RouteEvent
  export_added : Export → RouteEvent
  export_deleted : NamespacedName → RouteEvent

-- The abstract state: the peers and exports that there are.
pub record Routes : Type 0 where
  pub peers : Map String Peer
  pub exports : Map NamespacedName Export

abbrev pub route_event : RouteEvent → Routes → Routes
route_event (peer_added p) r = record r { peers = insert p.name p r.peers }
route_event (peer_deleted n) r = record r { peers = delete n r.peers }
route_event (export_added e) r = record r { exports = insert e.object e r.exports }
route_event (export_deleted k) r = record r { exports = delete k r.exports }

abbrev pub routes_after : List RouteEvent → Routes → Routes
routes_after [] r = r
routes_after (e ∷ es) r = routes_after es (route_event e r)

-- A namespace has no slash.
abbrev pub IsPlain : RouteEvent → Type 0
IsPlain (peer_added p) = Unit
IsPlain (peer_deleted n) = Unit
IsPlain (export_added e) = Lacks "/" e.object.namespace
IsPlain (export_deleted k) = Lacks "/" k.namespace

abbrev pub as_cluster : {A : Type 0} → (A → Cluster) → Option A → Option Cluster
as_cluster f none = none
as_cluster f (some a) = some (f a)

as_cluster_if :
    {A : Type 0} (f : A → Cluster) (b : Bool) (x y : Option A)
    → as_cluster f (if b then x else y) ≡ (if b then as_cluster f x else as_cluster f y)
as_cluster_if f true x y = refl
as_cluster_if f false x y = refl

peer_test :
    (n p : String) → str_eq (remote_peer_cluster_name n) (remote_peer_cluster_name p) ≡ str_eq n p
peer_test n p = ground (
  arith,
  eq_iff (remote_peer_cluster_name n) (remote_peer_cluster_name p),
  eq_iff n p,
  remote_peer_cluster_name_inj n p,
)

apart_test :
    (n : String) (k : NamespacedName)
    → str_eq (remote_peer_cluster_name n) (export_cluster_name k.name k.namespace) ≡ false
apart_test n k =
    elim (Bool-cases
      (str_eq (remote_peer_cluster_name n) (export_cluster_name k.name k.namespace))) [
        | inr q ↦ q
        | inl q ↦ absurd (peer_export_apart n k ((eq_iff _ _).0 q))
      ]

apart_test' :
    (k : NamespacedName) (n : String)
    → str_eq (export_cluster_name k.name k.namespace) (remote_peer_cluster_name n) ≡ false
apart_test' k n =
    elim (Bool-cases
      (str_eq (export_cluster_name k.name k.namespace) (remote_peer_cluster_name n))) [
        | inr q ↦ q
        | inl q ↦ absurd (peer_export_apart n k (sym ((eq_iff _ _).0 q)))
      ]

export_test :
    (a b : NamespacedName)
    → Lacks "/" a.namespace
    → Lacks "/" b.namespace
    → str_eq (export_cluster_name a.name a.namespace) (export_cluster_name b.name b.namespace)
      ≡ (a == b)
export_test a b la lb = elim (Bool-cases (a == b)) [
  | inl same ↦
      let equal : a ≡ b = (same_name_iff a b).0 same in
      (eq_iff _ _).1 (ap (λ (k : NamespacedName). export_cluster_name k.name k.namespace) equal)
      ∙ sym same
  | inr other ↦
      elim (Bool-cases (
        str_eq (export_cluster_name a.name a.namespace) (export_cluster_name b.name b.namespace))) [
          | inr q ↦ q ∙ sym other
          | inl q ↦
              let equal = export_cluster_name_inj a b la lb ((eq_iff _ _).0 q) in
              let same = (same_name_iff a b).1 equal in absurd (cc (same, other))
        ]
]

module _ {S : Type 0} (w : Caches S) (served : String → S → Option Cluster) where
  abbrev pub handle_event : RouteEvent → S → S × Option String
  handle_event (peer_added p) s = add_peer w p s
  handle_event (peer_deleted n) s = delete_peer w n s
  handle_event (export_added e) s = add_export w e s
  handle_event (export_deleted k) s = delete_export w k s

  -- The caches serve a cluster for every peer and export, as the code makes it, and none for others.
  abbrev pub Serves : Routes → S → Type 0
  Serves r s =
      ((p : String)
        → served (remote_peer_cluster_name p) s ≡ as_cluster peer_cluster (lookup p r.peers))
      × ((k : NamespacedName)
          → Lacks "/" k.namespace
          → served (export_cluster_name k.name k.namespace) s
            ≡ as_cluster export_cluster (lookup k r.exports))

  -- A cluster that was set, or taken away where it is `none`.
  abbrev IsSetTo : String → Option Cluster → S → S → Type 0
  IsSetTo name c s s' = (k : String) → served k s' ≡ (if str_eq name k then c else served k s)

  module _ (law : ServesClusters w served) where
    add_peer_sets :
        (p : Peer) (s : S)
        → (add_peer w p s).1 ≡ none
        → IsSetTo (remote_peer_cluster_name p.name) (some (peer_cluster p)) s (add_peer w p s).0
    unfolding add_peer
    add_peer_sets p s h k = elim (Option-cases w.resolver_error) [
      | inr (e, q) ↦ absurd (let h' = rw q at h in cc)
      | inl q ↦ elim (Option-cases (w.tls_error (tls_context p))) [
        | inr (e, q') ↦ absurd (let h' = rw (q, q') at h in cc)
        | inl q' ↦
            rw (q, q')
              (law.after_update (remote_peer_cluster_name p.name) k (peer_cluster p) s
                (rw (q, q') at h))
      ]
    ]

    add_export_sets :
        (e : Export) (s : S)
        → (add_export w e s).1 ≡ none
        → IsSetTo
            (export_cluster_name e.object.name e.object.namespace)
            (some (export_cluster e))
            s
            (add_export w e s).0
    unfolding add_export
    add_export_sets e s h k = elim (Option-cases w.resolver_error) [
      | inr (x, q) ↦ absurd (let h' = rw q at h in cc)
      | inl q ↦ rw q (
          law.after_update (export_cluster_name e.object.name e.object.namespace) k
            (export_cluster e) s (rw q at h))
    ]

    set_peer :
        (r : Routes) (s s' : S) (n : String) (o : Option Peer) (peers : Map String Peer)
        → IsSetTo (remote_peer_cluster_name n) (as_cluster peer_cluster o) s s'
        → ((p : String) → lookup p peers ≡ (if str_eq n p then o else lookup p r.peers))
        → Serves r s
        → Serves (record r { peers = peers }) s'
    set_peer r s s' n o peers set new h = (
      (λ p.
          set (remote_peer_cluster_name p)
          ∙ rw (peer_test n p, h.0 p)
              (sym (as_cluster_if peer_cluster (str_eq n p) o (lookup p r.peers)))
          ∙ sym (ap (as_cluster peer_cluster) (new p))),
      λ k plain. set (export_cluster_name k.name k.namespace) ∙ rw (apart_test n k) (h.1 k plain),
    )

    set_export :
        (r : Routes) (s s' : S) (n : NamespacedName) (o : Option Export)
        (exports : Map NamespacedName Export)
        → Lacks "/" n.namespace
        → IsSetTo (export_cluster_name n.name n.namespace) (as_cluster export_cluster o) s s'
        → ((k : NamespacedName) → lookup k exports ≡ (if n == k then o else lookup k r.exports))
        → Serves r s
        → Serves (record r { exports = exports }) s'
    set_export r s s' n o exports own set new h = (
      (λ p. set (remote_peer_cluster_name p) ∙ rw (apart_test' n p) (h.0 p)),
      λ k plain.
          set (export_cluster_name k.name k.namespace)
          ∙ rw (export_test n k own plain, h.1 k plain)
              (sym (as_cluster_if export_cluster (n == k) o (lookup k r.exports)))
          ∙ sym (ap (as_cluster export_cluster) (new k)),
    )

    event-Serves :
        (e : RouteEvent) (r : Routes) (s : S)
        → IsPlain e
        → (handle_event e s).1 ≡ none
        → Serves r s
        → Serves (route_event e r) (handle_event e s).0
    unfolding delete_peer delete_export
    event-Serves (peer_added p) r s plain h v =
        set_peer r s _ p.name (some p) (insert p.name p r.peers) (add_peer_sets p s h)
          (λ k. lookup-insert p.name k p r.peers) v
    event-Serves (peer_deleted n) r s plain h v =
        set_peer r s _ n none (delete n r.peers)
          (λ k. law.after_delete (remote_peer_cluster_name n) k s h)
          (λ k. lookup-delete n k r.peers) v
    event-Serves (export_added e) r s plain h v =
        set_export r s _ e.object (some e) (insert e.object e r.exports) plain
          (add_export_sets e s h) (λ k. lookup-insert e.object k e r.exports) v
    event-Serves (export_deleted n) r s plain h v =
        set_export r s _ n none (delete n r.exports) plain
          (λ k. law.after_delete (export_cluster_name n.name n.namespace) k s h)
          (λ k. lookup-delete n k r.exports) v

  -- The handlers of a history, each without an error.
  abbrev pub run_events : List RouteEvent → S → S
  run_events [] s = s
  run_events (e ∷ es) s = run_events es (handle_event e s).0

  abbrev pub AreHandled : List RouteEvent → S → Type 0
  AreHandled [] s = Unit
  AreHandled (e ∷ es) s = ((handle_event e s).1 ≡ none) × AreHandled es (handle_event e s).0

  -- After a history of peers and exports that were added and deleted without an error, the caches serve
  -- for each peer, and for each export whose namespace has no slash, the cluster that the code makes of
  -- what was added last, and none if it was deleted since; other peers and exports never get in the way.
  pub history-Serves :
      (es : List RouteEvent) (r : Routes) (s : S)
      → ServesClusters w served
      → All IsPlain es
      → AreHandled es s
      → Serves r s
      → Serves (routes_after es r) (run_events es s)
  history-Serves [] r s law plain handled v = v
  history-Serves (e ∷ es) r s law plain handled v =
      history-Serves es (route_event e r) (handle_event e s).0 law plain.1 handled.1
        (event-Serves law e r s plain.0 handled.0 v)
