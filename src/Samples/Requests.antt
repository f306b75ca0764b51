-- ===== src/Samples/Requests.antt =====
-- A request to an import with two sources: the first peer refuses, the second is unreachable but
-- serves when it is asked again.
use clusterlink.Common.{
  ℕ, zero, suc, ◌≡◌, ◌≢◌, refl, String, Bool, true, false, Option, some, List, [], ◌∷◌, Result, ok,
  err, subst, inr, arith, str_eq, if◌then◌else◌, get_elem?, ℕ_eq, string_eq,
}
use clusterlink.Common.Maps.{lookup, insert}
use clusterlink.Crds.Names.{NamespacedName, name_eq}
use clusterlink.Crds.Imports.{Import, ImportSource}
use clusterlink.Crds.Peers.{Peer, Condition}
use clusterlink.Pdp.Matching.{
  allow, access_policy_decide, access_policy_matches, workload_set_or_selector_list_matches,
  workload_set_or_selector_matches,
}
use clusterlink.Pdp.Tiers.{
  Pdp, DestinationDecision, decide, tier_decide, map_decide, depends_on_client_attrs,
}
use clusterlink.Balancer.Select.{
  LoadBalancer, new_load_balancer, new_load_balancing_result, select, get_scheme, get, mark_failed,
  select_by_scheme, select_static, select_delayed, is_delayed, delay,
}
use clusterlink.Balancer.Progress.{IsKnown}
use clusterlink.Authz.Pods.{get_pod_info_by_ip}
use clusterlink.Authz.Attributes.{get_src_attributes, get_dst_attributes, add_labels}
use clusterlink.Authz.Egress.{
  World, Call, EgressRequest, EgressResponse, EgressError, Self, authorize_egress, nil_source,
  out_of_fuel, dst_attributes, attempt, remote_peer_cluster_name,
}
use clusterlink.Authz.Egress.Sound.{
  answer, call_of, egress_answers, egress_granted, GrantedBy, DrawsIn, IsBlind,
}
use clusterlink.Authz.Egress.Turns.{Serves, Answerable}
use clusterlink.Authz.Egress.Failover.{egress_failover}
use clusterlink.Samples.World.{as_selector, name_string, object, allow_all}

abbrev source : String → ImportSource
source peer = record { peer = peer; export_name = "api"; export_namespace = "default" }

abbrev imp : Import
imp = record {
  object = object "api";
  labels = [];
  spec = record {
    port = 80;
    target_port = 0;
    sources = source "west" ∷ source "east" ∷ [];
    lb_scheme = "static";
  };
  conditions = [];
}

abbrev is_reachable : List Condition → String → Bool
is_reachable [] kind = false
is_reachable (c ∷ cs) kind = str_eq c.kind kind

abbrev peer : String → Peer
peer name = record { name = name; gateways = []; conditions = []; labels = [] }

abbrev open_pdp : Pdp (Unit {0})
open_pdp = record {
  privileged_policies = record { privileged = true; deny_policies = []; allow_policies = [] };
  regular_policies = record {
    privileged = false;
    deny_policies = [];
    allow_policies = (object "open", allow_all) ∷ [];
  };
}

-- A client is the name of its peer; "west" refuses every request.
abbrev world : ℕ → World (Unit {0}) String
world a = record {
  draw = 0;
  pdp = open_pdp;
  peer_client = ("west", "west") ∷ ("east", "east") ∷ [];
  get_peer = λ k. some (peer k.name);
  authorize = λ cl req. if str_eq cl "west" then err "refused" else ok "token";
}

abbrev self : Self
self = record {
  namespace = "clusterlink";
  peer_name = "here";
  peer_labels = [];
  pods = record { ip_to_pod = []; pod_list = [] };
}

abbrev request : EgressRequest
request = record { import_name = object "api"; ip = "10.0.0.1" }

abbrev get_import : NamespacedName → Option Import
get_import k = some imp

static-IsKnown : IsKnown imp
unfolding get_scheme
static-IsKnown = inr (inr refl)

run : LoadBalancer × Result EgressError EgressResponse
run =
    authorize_egress as_selector name_string is_reachable self get_import world new_load_balancer
      request

-- The answer of the code: "west" is tried first and refuses, "east" is delayed and then serves.
run_lem :
    run.1
    ≡ ok (record {
      allowed = true;
      remote_peer_cluster = "remote-peer-east";
      access_token = "token";
    })
unfolding run authorize_egress attempt select get new_load_balancing_result get_src_attributes
    get_dst_attributes add_labels get_pod_info_by_ip depends_on_client_attrs lookup insert
    mark_failed select_by_scheme select_static select_delayed get_scheme is_delayed delay decide
    tier_decide map_decide access_policy_decide access_policy_matches
    workload_set_or_selector_list_matches workload_set_or_selector_matches remote_peer_cluster_name
    new_load_balancer
run_lem = refl

abbrev the_answer : Result EgressError EgressResponse
the_answer =
    answer as_selector name_string is_reachable self get_import world new_load_balancer request

import_checks : (i : Import) → get_import request.import_name ≡ some i → IsKnown i × DrawsIn world i
import_checks i found = let same : imp ≡ i = cc in (subst IsKnown same static-IsKnown, λ a pos. pos)

egress_answers_example : (the_answer ≢ err out_of_fuel) × (the_answer ≢ err nil_source)
egress_answers_example =
    egress_answers as_selector name_string is_reachable self get_import world new_load_balancer
      request import_checks

abbrev response : EgressResponse
response = record {
  allowed = true;
  remote_peer_cluster = "remote-peer-east";
  access_token = "token";
}

egress_granted_example :
    (¬ IsBlind self world request)
    × ((i : Import) × (get_import request.import_name ≡ some i)
        × GrantedBy as_selector name_string is_reachable self get_import world new_load_balancer
            request i response)
unfolding run
egress_granted_example =
    egress_granted as_selector name_string is_reachable self get_import world new_load_balancer
      request response import_checks run_lem

call : Call
call = call_of self request imp

abbrev allowed_to : ImportSource → DestinationDecision
allowed_to s = record {
  destination = dst_attributes (call_of self request imp) s (peer s.peer);
  decision = allow;
  matched_by = "open";
  privileged_match = false;
}

decided_lem :
    (s : ImportSource)
    → decide as_selector name_string
        (call_of self request imp).src_attributes
        (dst_attributes (call_of self request imp) s (peer s.peer))
        "default"
        open_pdp
      ≡ ok (allowed_to s)
unfolding decide tier_decide map_decide access_policy_decide access_policy_matches
    workload_set_or_selector_list_matches workload_set_or_selector_matches
decided_lem s = refl

each_answers :
    (a : ℕ) (s : ImportSource)
    → (cl : String) × (lookup s.peer (world a).peer_client ≡ some cl)
    → Answerable as_selector name_string (call_of self request imp) (world a) s
each_answers a s client = record {
  peer = peer s.peer;
  decision = allowed_to s;
  peer_known = refl;
  decided = decided_lem s;
  has_client = λ _. client;
}

all-Answerable :
    (a i : ℕ) (s : ImportSource)
    → get_elem? imp.sources i ≡ some s
    → Answerable as_selector name_string (call_of self request imp) (world a) s
unfolding lookup
all-Answerable a zero s at =
    let e : source "west" ≡ s = cc in
    subst (Answerable as_selector name_string (call_of self request imp) (world a)) e
      (each_answers a (source "west") ("west", refl))
all-Answerable a (suc zero) s at =
    let e : source "east" ≡ s = cc in
    subst (Answerable as_selector name_string (call_of self request imp) (world a)) e
      (each_answers a (source "east") ("east", refl))
all-Answerable a (suc (suc i)) s at = absurd (cc)

east-Serves :
    (a : ℕ) → Serves as_selector name_string (call_of self request imp) (world a) (source "east")
unfolding lookup
east-Serves a = record {
  peer = peer "east";
  decision = allowed_to (source "east");
  client = "east";
  token = "token";
  peer_known = refl;
  decided = decided_lem (source "east");
  allowed = refl;
  has_client = refl;
  authorized = refl;
}

sees : ¬ IsBlind self world request
unfolding depends_on_client_attrs get_src_attributes get_pod_info_by_ip lookup
sees e = cc

egress_failover_example :
    (resp : EgressResponse) × (answer as_selector name_string is_reachable self get_import world
        new_load_balancer request
      ≡ ok resp)
egress_failover_example =
    egress_failover as_selector name_string is_reachable self get_import world new_load_balancer
      request imp 1 (source "east") refl sees static-IsKnown (λ a pos. pos) all-Answerable
      (omega arith) refl east-Serves
