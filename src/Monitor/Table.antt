-- ===== src/Monitor/Table.antt =====
-- The table of monitors of pkg/controlplane/control/peer.go: AddPeer, DeletePeer and Stop. Each monitor
-- is a goroutine, which runs until the monitor is stopped; Stop waits for all of them.
pub mod Leaks
use clusterlink.Common.{
  ℕ, suc, ◌+◌, String, Bool, true, false, Option, none, some, List, [], ◌∷◌, nat_eq, length,
  if◌then◌else◌, string_eq,
}
use clusterlink.Common.Maps.{Map, lookup, insert, delete}
use clusterlink.Crds.Peers.{Peer}
use clusterlink.Monitor.{peer_changed}

-- A monitor, by the number of its goroutine, with its peer.
pub record MonitorRef : Type 0 where
  pub id : ℕ
  pub pr : Peer

-- `running` holds the goroutines that were not stopped.
pub record PeerManager : Type 0 where
  pub monitors : Map String MonitorRef
  pub running : List ℕ
  pub next_id : ℕ
  pub stopped : Bool

unfoldable pub new_peer_manager : PeerManager
new_peer_manager = record { monitors = []; running = []; next_id = 0; stopped = false }

unfoldable pub without : ℕ → List ℕ → List ℕ
without id [] = []
without id (x ∷ xs) = let rest = without id xs in if nat_eq x id then rest else x ∷ rest

-- `monitor.Stop()`
abbrev pub stop_monitor : ℕ → PeerManager → PeerManager
stop_monitor id m = record m { running = without id m.running }

-- `newPeerMonitor`, which starts the goroutine.
abbrev pub start_monitor : Peer → PeerManager → PeerManager
start_monitor pr m = record m {
  monitors = insert pr.name (record { id = m.next_id; pr = pr }) m.monitors;
  running = m.next_id ∷ m.running;
  next_id = m.next_id + 1;
}

-- With the monitor of the peer's name, if there is one.
unfoldable pub put_peer : Peer → PeerManager → Option MonitorRef → PeerManager
put_peer pr m none = start_monitor pr m
put_peer pr m (some r) =
    if peer_changed r.pr pr
    then start_monitor pr (stop_monitor r.id m)
    else record m { monitors = insert pr.name (record r { pr = pr }) m.monitors }

unfoldable pub add_peer : Peer → PeerManager → PeerManager
unfolding put_peer
add_peer pr m = if m.stopped then m else put_peer pr m (lookup pr.name m.monitors)

unfoldable pub delete_peer : String → PeerManager → PeerManager
delete_peer name m = record m { monitors = delete name m.monitors }

-- The loop of Stop.
unfoldable pub stop_all : Map String MonitorRef → List ℕ → List ℕ
stop_all [] running = running
stop_all ((name, r) ∷ rest) running = stop_all rest (without r.id running)

-- `none` where monitorWG.Wait() waits for ever.
unfoldable pub stop : PeerManager → Option PeerManager
unfolding stop_all
stop m = elim (stop_all m.monitors m.running) [
  | [] ↦ some (record m { running = []; stopped = true })
  | id ∷ left ↦ none
]
