-- ===== src/Dataplane/Listeners.antt =====
-- The table of listeners of pkg/dataplane/server/dataplane.go with CreateListener of listener.go, and
-- handleListeners of pkg/dataplane/client/fetcher.go. A send to a channel from which no goroutine will
-- receive blocks for ever, and so does one to a channel that the map does not have.
use clusterlink.Common.{
  String, Bool, true, ◌&&◌, Option, none, some, List, [], ◌∷◌, ◌++◌, map, Result, ok, err, nat_eq,
  str_eq, if◌then◌else◌, string_eq,
}
use clusterlink.Common.Maps.{Map, lookup, insert, delete}
use clusterlink.Xds.{Listener, SocketAddress, import_listener_prefix}
use clusterlink.Dataplane.{Dataplane, heard, unheard, host_port, trimmed}

-- How a call ends that may block for ever.
pub data Progress (S : Type 0) : Type 0 where
  running : S → Progress S
  blocked : Progress S

abbrev pub continue_with : {S T : Type 0} → Progress S → (S → Progress T) → Progress T
continue_with (running s) next = next s
continue_with blocked next = blocked

abbrev pub listener_name : Listener → String
listener_name ln = trimmed ln.name import_listener_prefix

abbrev pub same_address : Listener → Listener → Bool
same_address a b =
    str_eq a.address.address b.address.address && nat_eq a.address.port_value b.address.port_value

module _ {Certificate Pool : Type 0} where
  -- d.listenerEnd[name] <- true
  unfoldable pub send_end :
      String → Dataplane Certificate Pool → Progress (Dataplane Certificate Pool)
  send_end name d = elim (lookup name d.listener_end) [
    | none ↦ blocked
    | some end ↦ elim end [
      | heard ↦ running (record d { listener_end = insert name unheard d.listener_end })
      | unheard ↦ blocked
    ]
  ]

  -- The new listener is put in the table, and the goroutine that creates it is started.
  abbrev pub put_listener : Listener → Dataplane Certificate Pool → Dataplane Certificate Pool
  put_listener ln d = record d {
    listeners = insert (listener_name ln) ln d.listeners;
    starting = d.starting ++ ((listener_name ln, ln.address) ∷ []);
  }

  unfoldable pub add_listener :
      Listener → Dataplane Certificate Pool → Progress (Dataplane Certificate Pool)
  unfolding send_end
  add_listener ln d = elim (lookup (listener_name ln) d.listeners) [
    | none ↦ running (put_listener ln d)
    | some old ↦
        if same_address ln old
        then running d
        else continue_with (send_end (listener_name ln) d) (λ d'. running (put_listener ln d'))
  ]

  unfoldable pub remove_listener :
      String → Dataplane Certificate Pool → Progress (Dataplane Certificate Pool)
  unfolding send_end
  remove_listener name d = send_end name (record d { listeners = delete name d.listeners })

  -- A goroutine that CreateListener runs in, up to its receive; `listen` is `net.Listen`, with its
  -- error if there is one.
  unfoldable pub create_listener :
      (String → Option String)
      → String
      → SocketAddress
      → Dataplane Certificate Pool
      → Dataplane Certificate Pool
  create_listener listen name address d = record d {
    listener_end =
        insert name (elim (listen (host_port address)) [ none ↦ heard | some e ↦ unheard ])
          d.listener_end;
  }

  -- The goroutines that were started run, in their order.
  unfoldable pub run_starting :
      (String → Option String)
      → List (String × SocketAddress)
      → Dataplane Certificate Pool
      → Dataplane Certificate Pool
  run_starting listen [] d = d
  run_starting listen ((name, address) ∷ rest) d =
      run_starting listen rest (create_listener listen name address d)

  unfoldable pub settle :
      (String → Option String) → Dataplane Certificate Pool → Dataplane Certificate Pool
  unfolding run_starting
  settle listen d = run_starting listen d.starting (record d { starting = [] })

  -- The second loop of handleListeners.
  unfoldable pub remove_unseen :
      List String
      → Map String Bool
      → Dataplane Certificate Pool
      → Progress (Dataplane Certificate Pool)
  unfolding remove_listener
  remove_unseen [] seen d = running d
  remove_unseen (name ∷ names) seen d =
      continue_with (elim (lookup name seen) [ some b ↦ running d | none ↦ remove_listener name d ])
        (remove_unseen names seen)

  abbrev pub listener_names : Dataplane Certificate Pool → List String
  listener_names d = map (λ (e : String × Listener). e.0) d.listeners

  abbrev pub without_error :
      Progress (Dataplane Certificate Pool) → Progress (Dataplane Certificate Pool × Option String)
  without_error p = continue_with p (λ d. running (d, none))

  unfoldable pub add_listeners :
      {Any : Type 0}
      → (Any → Result String Listener)
      → List Any
      → Map String Bool
      → Dataplane Certificate Pool
      → Progress (Dataplane Certificate Pool × Option String)
  unfolding add_listener remove_unseen
  add_listeners unmarshal [] seen d = without_error (remove_unseen (listener_names d) seen d)
  add_listeners unmarshal (r ∷ rs) seen d = elim (unmarshal r) [
    | err e ↦ running (d, some e)
    | ok ln ↦
        continue_with (add_listener ln d)
          (add_listeners unmarshal rs (insert (listener_name ln) true seen))
  ]

  unfoldable pub handle_listeners :
      {Any : Type 0}
      → (Any → Result String Listener)
      → List Any
      → Dataplane Certificate Pool
      → Progress (Dataplane Certificate Pool × Option String)
  unfolding add_listeners
  handle_listeners unmarshal resources d = add_listeners unmarshal resources [] d
