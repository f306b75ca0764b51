-- ===== src/Samples/Monitoring.antt =====
-- A peer that is monitored.
use clusterlink.Common.{
  ◌≡◌, refl, inr, String, Bool, true, false, none, List, [], ◌∷◌, ok, err, arith, string_eq, str_eq,
}
use clusterlink.Common.Maps.{Map, lookup, insert, delete}
use clusterlink.Monitor.Table.{new_peer_manager, add_peer, put_peer, delete_peer, stop}
use clusterlink.Monitor.Table.Leaks.{
  PeerEvent, added, deleted, handle_events, deleted_peer_blocks_stop,
}
use clusterlink.Crds.Peers.{Peer, Condition}
use clusterlink.Monitor.{
  PeerMonitor, Heartbeat, start, strike, declare_status, round, rounds, peer_changed,
  gateways_differ, conditions_differ, labels_differ,
}
use clusterlink.Monitor.Rounds.{rounds_converge}

abbrev peer : Map String String → Peer
peer labels = record {
  name = "east";
  gateways = record { host = "gw"; port = 443 } ∷ [];
  conditions = [];
  labels = labels;
}

abbrev set : List Condition → Condition → List Condition
set conditions c = c ∷ []

abbrev unreached : List Condition → String → Bool
unreached conditions kind = false

abbrev up : Heartbeat
up = ok []

abbrev down : Heartbeat
down = err "timeout"

-- The first heartbeat makes the peer reachable, and the fifth failure after it unreachable.
abbrev reached : PeerMonitor
reached = rounds set (up ∷ []) (start unreached (peer []))

test_reached : reached.healthy ≡ true
unfolding rounds round strike declare_status start
test_reached = refl

test_four : (rounds set (down ∷ down ∷ down ∷ down ∷ []) reached).healthy ≡ true
unfolding rounds round strike declare_status start
test_four = refl

abbrev read_status : List Condition → String → Bool
read_status [] kind = false
read_status (c ∷ conditions) kind = str_eq c.status "True"

rounds_converge_example :
    let m =
      rounds set
        (down ∷ down ∷ down ∷ down ∷ down ∷ [])
        (rounds set (up ∷ []) (start read_status (peer []))) in
    (m.healthy ≡ false) × (read_status m.pr.conditions "PeerReachable" ≡ false)
rounds_converge_example =
    rounds_converge set read_status (peer []) (up ∷ []) (down ∷ down ∷ down ∷ down ∷ down ∷ [])
      false (λ conditions c. refl) (refl, (refl, (refl, (refl, (refl, tt))))) (inr (omega arith))

-- Two peers whose only labels have different keys and empty values.
abbrev first : Peer
first = peer (("zone", "") ∷ [])

abbrev second : Peer
second = peer (("tier", "") ∷ [])

unnoticed : peer_changed first second ≡ false
unfolding peer_changed gateways_differ conditions_differ labels_differ lookup
unnoticed = refl

abbrev named : String → Peer
named name = record { name = name; gateways = []; conditions = []; labels = [] }

abbrev before : List PeerEvent
before = added (named "west") ∷ deleted "west" ∷ added (named "north") ∷ []

not_there : lookup "east" (handle_events before new_peer_manager).monitors ≡ none
unfolding lookup insert delete add_peer put_peer delete_peer new_peer_manager
not_there = refl

deleted_peer_blocks_stop_example :
    stop (
      handle_events
        (added (named "south") ∷ [])
        (delete_peer "east" (add_peer (named "east") (handle_events before new_peer_manager))))
    ≡ none
deleted_peer_blocks_stop_example =
    deleted_peer_blocks_stop before (added (named "south") ∷ []) (named "east") not_there
