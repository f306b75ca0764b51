-- ===== src/Lib.antt =====
-- ClusterLink connects services of several Kubernetes clusters. Of the control plane this library
-- models the decisions that a connection depends on. A workload's connection to an imported
-- service is authorized by the authorization manager: it takes the attributes of the client's pod,
-- asks the load balancer for one of the sources of the import, the decision point whether the
-- policies allow the connection to that source, and the peer of the source for an access token,
-- until a source serves or all of them failed. The port manager of the control manager leases the
-- ports that imported services listen on, and the control manager keeps the services and endpoint
-- slices of imports. The xDS manager tells the data plane about peers, exports and imports; the data
-- plane asks the authorization server for each connection and forwards its bytes.
--
-- Files and the code they model, by paths from the repository's root:
-- - Common: numbers, lists, equality, Go's maps as association lists, `(value, error)` as Result;
--   Common/Pigeonhole counts the keys of a map below a bound.
-- - Crds: the types of pkg/apis/clusterlink.net/v1alpha1 (accesspolicy.go with `Validate`,
--   import.go, peer.go).
-- - Pdp: pkg/controlplane/authz/connectivitypdp. Pdp/Matching and Pdp/Tiers hold the definitions,
--   with the functions' names in snake case (`addOrUpdatePolicy` is add_or_update_policy); Matches,
--   Decisions and Precedence relate decide to the predicate Permitted, Validity and Histories
--   are about sequences of changes, Lookups about one change, Aliasing about getPolicies.
-- - Balancer: pkg/controlplane/authz/loadbalancer.go. Balancer/Select holds the definitions, Random,
--   Trails, Progress and Schemes the invariant of a request's progress, Attempts what Select does.
-- - Authz: pkg/controlplane/authz/manager.go. Authz/Pods is the table of pods, Authz/Attributes the
--   attributes, Authz/Egress `authorizeEgress` with one definition for each part of its loop:
--   attempt, try_peer, after_decision and call_peer. Loop, Steps, Turns, Sound and Failover hold
--   what is proved of it.
--   Authz/Ingress is `authorizeIngress` and `parseAuthorizationHeader`, with what is proved of them in
--   Granted, Tokens and Lookups; Authz/Server is pkg/controlplane/authz/server.go, with Bearer and
--   Answers.
--   Authz/Credentials has the clients of the peers, the certificates and the key that they keep.
-- - Monitor: the monitor of a peer in pkg/controlplane/control/peer.go; Rounds is about the
--   thresholds of its heartbeats, Changes about `peerChanged`; Table is the table of monitors, and Leaks
--   what becomes of the goroutine of a deleted peer.
-- - Services: addImportService, deleteImportService and what they compare, of
--   pkg/controlplane/control/manager.go; Desired is about what they leave in the store.
-- - Slices: endpointSliceChanged, boolPointerChanged and conditionChanged of the same file.
-- - Kube: what is asked of the API server, as operations on a store of any type.
-- - Control: the handlers of pkg/controlplane/control/manager.go. Its parent has the state and the errors;
--   EndpointSlices, Imports, Exports, Secrets and Events have the handlers, Names the names of import
--   endpoint slices. What is proved of them is in Leasing, Releases and Errors (imports and exports),
--   Copies (merge imports), Keys (the signing key, up to the authorization manager), Watch (serviceToImport) and Names/RoundTrip.
-- - PeerClient: pkg/controlplane/peer/client.go, with the goroutines of `getResponse` as steps;
--   Kept has what all steps keep, and Deadlock and Answers are about its runs, of any length.
-- - Xds: pkg/controlplane/xds/manager.go with the names of pkg/controlplane/api/xds.go; Names says that
--   they are different, Served what the caches serve after a history.
-- - Dataplane: the Go data plane. Clusters, Listeners and Secrets are the tables of
--   pkg/dataplane/server/dataplane.go with the handlers of pkg/dataplane/client/fetcher.go; Egress is
--   listener.go and Ingress server.go of pkg/dataplane/server, Forwarder forwarder.go. Fetcher is
--   its loop. Snapshots, Ends and Certificates are about the handlers of the fetcher; Routes joins them with the xDS manager, and
--   Granted joins the egress side with the authorization server.
-- - Ports: pkg/controlplane/control/port.go; Consistency, Leases and Draws hold the proofs.
-- - Samples: concrete inputs.
--
-- State is passed on explicitly. The locks of the Go code make each method one step. A Go map is an
-- association list, and a theorem holds for every order of it. Integers are natural numbers with
-- the wrap-around of their width written out.
--
-- Parameters stand for code outside the repository: label selectors (LabelSelectorAsSelector),
-- the printing of names, rand.Intn (a number below its bound), the Kubernetes client and the
-- clients of the peers. What these answer may change between the attempts of one request: the
-- egress loop takes the state of the world for each attempt.
--
-- The egress loop has no bound in the code. Its model runs on fuel, 2 * sources + 1: each source is
-- tried once, and tried again once at most if it was delayed, and then `Select` fails.
--
-- The API server is an abstract store with clients; KeepsWrites, SetsOne, UpdatesExisting and
-- CreatesMissing are what is assumed of them, ReadsStatus is what is assumed of the functions on
-- conditions, IsProper of connections, and ServesClusters is what is assumed of an xDS cache. The token library is a
-- parameter; ParsesSigned is what is assumed of it.
--
-- Not modelled of the control plane: two handlers of the control manager that run at the same time, the
-- queue of status updates in pkg/controlplane/control/peer.go, and the parsing of certificates. Not modelled
-- of the data plane: the order in which the fetchers of pkg/dataplane/client/xds.go start, and
-- the readiness probe.
--
-- Not modelled: the logging; the registration of controllers; the operator; the making of
-- certificates and keys; the command line programs.
pub mod Common
pub mod Crds
pub mod Kube
pub mod Pdp
pub mod Balancer
pub mod Authz
pub mod Ports
pub mod Monitor
pub mod Services
pub mod Slices
pub mod Control
pub mod PeerClient
pub mod Xds
pub mod Dataplane
mod Samples
