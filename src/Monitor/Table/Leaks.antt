-- ===== src/Monitor/Table/Leaks.antt =====
-- The goroutine of a peer that was deleted.
use clusterlink.Common.{
  ℕ, ◌+◌, ◌<◌, ◌≡◌, ◌≢◌, refl, sym, ap, ◌∙◌, inl, inr, String, Bool, true, false, Option, none,
  some, List, [], ◌∷◌, nat_eq, eq_iff, arith, All, Any, All-map, if◌then◌else◌, Bool-cases,
  string_eq, subst,
}
use clusterlink.Common.Maps.{Map, lookup, insert, delete, All-delete, All-insert, All-lookup}
use clusterlink.Crds.Peers.{Peer}
use clusterlink.Monitor.{peer_changed}
use clusterlink.Monitor.Table.{
  MonitorRef, PeerManager, new_peer_manager, without, stop_monitor, start_monitor, put_peer,
  add_peer, delete_peer, stop_all, stop,
}

pub data PeerEvent : Type 0 where
  added : Peer → PeerEvent
  deleted : String → PeerEvent

abbrev pub handle_event : PeerEvent → PeerManager → PeerManager
handle_event (added pr) m = add_peer pr m
handle_event (deleted name) m = delete_peer name m

abbrev pub handle_events : List PeerEvent → PeerManager → PeerManager
handle_events [] m = m
handle_events (e ∷ es) m = handle_events es (handle_event e m)

abbrev Entry : Type 0
Entry = String × MonitorRef

-- The numbers of the table were given out.
abbrev AreBelow : ℕ → Map String MonitorRef → Type 0
AreBelow n = All (λ (e : Entry). e.1.id < n)

weaker : (n : ℕ) (m : Map String MonitorRef) → AreBelow n m → AreBelow (n + 1) m
weaker n m h = All-map (λ e l. omega arith) m h

-- The goroutine runs, and no monitor of the table has its number.
record IsLeaked (id : ℕ) (m : PeerManager) : Type 0 where
  is_running : Any (λ (x : ℕ). x ≡ id) m.running
  is_gone : All (λ (e : Entry). e.1.id ≢ id) m.monitors
  is_below : id < m.next_id

without_other :
    (id other : ℕ) (xs : List ℕ)
    → other ≢ id
    → Any (λ (x : ℕ). x ≡ id) xs
    → Any (λ (x : ℕ). x ≡ id) (without other xs)
unfolding without
without_other id other [] d h = elim h [ ]
without_other id other (x ∷ xs) d (inl e) =
    let differs : nat_eq x other ≡ false = ground (arith, e) in rw (differs, without) (inl e)
without_other id other (x ∷ xs) d (inr h) = elim (Bool-cases (nat_eq x other)) [
  | inl same ↦ rw (same, without) (without_other id other xs d h)
  | inr differs ↦ rw (differs, without) (inr (without_other id other xs d h))
]

start-IsLeaked :
    (id : ℕ) (pr : Peer) (m : PeerManager) → IsLeaked id m → IsLeaked id (start_monitor pr m)
start-IsLeaked id pr m v = record {
  is_running = inr v.is_running;
  is_gone =
      All-insert (λ (e : Entry). e.1.id ≢ id) pr.name (record { id = m.next_id; pr = pr })
        m.monitors (λ q. omega (arith, q, v.is_below)) v.is_gone;
  is_below = let b = v.is_below in omega arith;
}

put-IsLeaked :
    (id : ℕ) (pr : Peer) (m : PeerManager) (o : Option MonitorRef)
    → lookup pr.name m.monitors ≡ o
    → IsLeaked id m
    → IsLeaked id (put_peer pr m o)
unfolding put_peer
put-IsLeaked id pr m none q v = start-IsLeaked id pr m v
put-IsLeaked id pr m (some r) q v =
    let other = All-lookup (λ (e : Entry). e.1.id ≢ id) pr.name r m.monitors v.is_gone q in
    elim (Bool-cases (peer_changed r.pr pr)) [
      | inl changed ↦ rw changed (
          start-IsLeaked id pr (stop_monitor r.id m) (record {
            is_running = without_other id r.id m.running other v.is_running;
            is_gone = v.is_gone;
            is_below = v.is_below;
          }))
      | inr same ↦ rw same (record {
        is_running = v.is_running;
        is_gone =
            All-insert (λ (e : Entry). e.1.id ≢ id) pr.name (record r { pr = pr }) m.monitors other
              v.is_gone;
        is_below = v.is_below;
      })
    ]

-- Whichever branch is taken.
either_way :
    (P : PeerManager → Type 0) (b : Bool) (x y : PeerManager) → P x → P y → P (if b then x else y)
either_way P true x y p q = p
either_way P false x y p q = q

event-IsLeaked :
    (id : ℕ) (e : PeerEvent) (m : PeerManager) → IsLeaked id m → IsLeaked id (handle_event e m)
unfolding add_peer delete_peer
event-IsLeaked id (added pr) m v =
    either_way (IsLeaked id) m.stopped m (put_peer pr m (lookup pr.name m.monitors)) v
      (put-IsLeaked id pr m (lookup pr.name m.monitors) refl v)
event-IsLeaked id (deleted name) m v = record {
  is_running = v.is_running;
  is_gone = All-delete (λ (e : Entry). e.1.id ≢ id) name m.monitors v.is_gone;
  is_below = v.is_below;
}

events-IsLeaked :
    (id : ℕ) (es : List PeerEvent) (m : PeerManager)
    → IsLeaked id m
    → IsLeaked id (handle_events es m)
events-IsLeaked id [] m v = v
events-IsLeaked id (e ∷ es) m v = events-IsLeaked id es (handle_event e m) (event-IsLeaked id e m v)

-- The numbers of the table stay below the next one, and no event stops the manager.
record IsOrderly (m : PeerManager) : Type 0 where
  are_below : AreBelow m.next_id m.monitors
  not_stopped : m.stopped ≡ false

start-IsOrderly : (pr : Peer) (m : PeerManager) → IsOrderly m → IsOrderly (start_monitor pr m)
start-IsOrderly pr m v = record {
  are_below =
      All-insert (λ (e : Entry). e.1.id < m.next_id + 1) pr.name
        (record { id = m.next_id; pr = pr }) m.monitors (omega arith)
        (weaker m.next_id m.monitors v.are_below);
  not_stopped = v.not_stopped;
}

put-IsOrderly :
    (pr : Peer) (m : PeerManager) (o : Option MonitorRef)
    → lookup pr.name m.monitors ≡ o
    → IsOrderly m
    → IsOrderly (put_peer pr m o)
unfolding put_peer
put-IsOrderly pr m none q v = start-IsOrderly pr m v
put-IsOrderly pr m (some r) q v =
    either_way IsOrderly (peer_changed r.pr pr) (start_monitor pr (stop_monitor r.id m))
      (record m { monitors = insert pr.name (record r { pr = pr }) m.monitors })
      (start-IsOrderly pr (stop_monitor r.id m)
        (record { are_below = v.are_below; not_stopped = v.not_stopped }))
      (record {
        are_below =
            All-insert (λ (e : Entry). e.1.id < m.next_id) pr.name (record r { pr = pr }) m.monitors
              (All-lookup (λ (e : Entry). e.1.id < m.next_id) pr.name r m.monitors v.are_below q)
              v.are_below;
        not_stopped = v.not_stopped;
      })

event-IsOrderly : (e : PeerEvent) (m : PeerManager) → IsOrderly m → IsOrderly (handle_event e m)
unfolding add_peer delete_peer
event-IsOrderly (added pr) m v =
    either_way IsOrderly m.stopped m (put_peer pr m (lookup pr.name m.monitors)) v
      (put-IsOrderly pr m (lookup pr.name m.monitors) refl v)
event-IsOrderly (deleted name) m v = record {
  are_below = All-delete (λ (e : Entry). e.1.id < m.next_id) name m.monitors v.are_below;
  not_stopped = v.not_stopped;
}

events-IsOrderly :
    (es : List PeerEvent) (m : PeerManager) → IsOrderly m → IsOrderly (handle_events es m)
events-IsOrderly [] m v = v
events-IsOrderly (e ∷ es) m v = events-IsOrderly es (handle_event e m) (event-IsOrderly e m v)

new-IsOrderly : IsOrderly new_peer_manager
unfolding new_peer_manager
new-IsOrderly = record { are_below = tt; not_stopped = refl }

below_differ :
    (id : ℕ) (m : Map String MonitorRef) → AreBelow id m → All (λ (e : Entry). e.1.id ≢ id) m
below_differ id m h = All-map (λ e l q. omega (arith, l, q)) m h

added_new :
    (pr : Peer) (m : PeerManager)
    → m.stopped ≡ false
    → lookup pr.name m.monitors ≡ none
    → add_peer pr m ≡ start_monitor pr m
unfolding add_peer put_peer
added_new pr m running new =
    ap (λ (b : Bool). if b then m else put_peer pr m (lookup pr.name m.monitors)) running
    ∙ ap (put_peer pr m) new

-- What was just inserted is deleted, with the others kept.
All-delete-insert :
    (P : Entry → Type 0) (name : String) (r : MonitorRef) (m : Map String MonitorRef)
    → All P m
    → All P (delete name (insert name r m))
unfolding insert delete
All-delete-insert P name r m h =
    rw ((eq_iff name name).1 refl) (All-delete P name (delete name m) (All-delete P name m h))

-- A monitor that was started for a new peer, and that peer deleted.
leak :
    (pr : Peer) (m : PeerManager)
    → IsOrderly m
    → lookup pr.name m.monitors ≡ none
    → IsLeaked m.next_id (delete_peer pr.name (add_peer pr m))
unfolding delete_peer
leak pr m v new =
    subst (λ (m' : PeerManager). IsLeaked m.next_id (delete_peer pr.name m'))
      (sym (added_new pr m v.not_stopped new))
      (record {
        is_running = inl refl;
        is_gone =
            All-delete-insert (λ (e : Entry). e.1.id ≢ m.next_id) pr.name
              (record { id = m.next_id; pr = pr }) m.monitors
              (below_differ m.next_id m.monitors v.are_below);
        is_below = omega arith;
      })

stop_all_leaked :
    (id : ℕ) (monitors : Map String MonitorRef) (running : List ℕ)
    → All (λ (e : Entry). e.1.id ≢ id) monitors
    → Any (λ (x : ℕ). x ≡ id) running
    → Any (λ (x : ℕ). x ≡ id) (stop_all monitors running)
unfolding stop_all
stop_all_leaked id [] running g h = h
stop_all_leaked id ((name, r) ∷ rest) running g h =
    stop_all_leaked id rest (without r.id running) g.1 (without_other id r.id running g.0 h)

leaked_blocks : (id : ℕ) (m : PeerManager) → IsLeaked id m → stop m ≡ none
unfolding stop
leaked_blocks id m v =
    left (stop_all m.monitors m.running)
      (stop_all_leaked id m.monitors m.running v.is_gone v.is_running)
  where
    left :
        (xs : List ℕ)
        → Any (λ (x : ℕ). x ≡ id) xs
        → elim xs [ [] ↦ some (record m { running = []; stopped = true }) | x ∷ rest ↦ none ] ≡ none
    left [] h = elim h [ ]
    left (x ∷ xs) h = refl

-- Where a peer that was not there is added and deleted again, Stop waits for ever, whatever peers were
-- added and deleted before and are so later.
pub deleted_peer_blocks_stop :
    (before later : List PeerEvent) (pr : Peer)
    → lookup pr.name (handle_events before new_peer_manager).monitors ≡ none
    → stop (
        handle_events later
          (delete_peer pr.name (add_peer pr (handle_events before new_peer_manager))))
      ≡ none
deleted_peer_blocks_stop before later pr new =
    let m = handle_events before new_peer_manager in
    leaked_blocks m.next_id (handle_events later (delete_peer pr.name (add_peer pr m))) (
      events-IsLeaked m.next_id later (delete_peer pr.name (add_peer pr m))
        (leak pr m (events-IsOrderly before new_peer_manager new-IsOrderly) new))
