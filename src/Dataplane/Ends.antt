-- ===== src/Dataplane/Ends.antt =====
-- A listener whose socket could not be opened.
use clusterlink.Common.{
  ◌≡◌, refl, ap, ◌∙◌, ◌⊎◌, inl, inr, String, Bool, Option, none, some, List, [], ◌∷◌, Result,
  str_eq, Any, string_eq, Bool-cases, Option-cases,
}
use clusterlink.Common.Maps.{Map, lookup, insert, delete, lookup-insert, lookup-insert_self}
use clusterlink.Xds.{Listener, SocketAddress}
use clusterlink.Dataplane.{Dataplane, heard, unheard, host_port}
use clusterlink.Dataplane.Listeners.{
  running, blocked, send_end, remove_listener, create_listener, remove_unseen, listener_names,
  without_error, add_listeners, handle_listeners,
}

module _ {Certificate Pool : Type 0} where
  -- No goroutine receives from the end of this listener.
  abbrev IsUnheard : String → Dataplane Certificate Pool → Type 0
  IsUnheard name d = lookup name d.listener_end ≡ some unheard

  send_unheard :
      (name : String) (d : Dataplane Certificate Pool)
      → IsUnheard name d
      → send_end name d ≡ blocked
  unfolding send_end
  send_unheard name d h = rw (h, send_end) refl

  still_unheard :
      (other name : String) (d : Dataplane Certificate Pool)
      → IsUnheard name d
      → lookup name (insert other unheard d.listener_end) ≡ some unheard
  still_unheard other name d h =
      lookup-insert other name unheard d.listener_end
      ∙ elim (Bool-cases (str_eq other name)) [ inl q ↦ rw q refl | inr q ↦ rw q h ]

  remove_unheard :
      (name : String) (d : Dataplane Certificate Pool)
      → IsUnheard name d
      → remove_listener name d ≡ blocked
  unfolding remove_listener
  remove_unheard name d h = send_unheard name (record d { listeners = delete name d.listeners }) h

  -- To remove another listener blocks, or leaves this one unheard.
  remove_other :
      (other name : String) (d : Dataplane Certificate Pool)
      → IsUnheard name d
      → (remove_listener other d ≡ blocked)
        ⊎ ((d' : Dataplane Certificate Pool) × (remove_listener other d ≡ running d')
            × IsUnheard name d')
  unfolding remove_listener send_end
  remove_other other name d h = elim (Option-cases (lookup other d.listener_end)) [
    | inl out ↦ inl (rw (out, send_end) refl)
    | inr (unheard, found) ↦ inl (rw (found, send_end) refl)
    | inr (heard, found) ↦ inr (
      record d {
        listeners = delete other d.listeners;
        listener_end = insert other unheard d.listener_end;
      },
      rw (found, send_end) refl,
      still_unheard other name d h,
    )
  ]

  -- To remove listeners of which one is unheard blocks, at this one or before.
  removal_blocks :
      (names : List String) (seen : Map String Bool) (d : Dataplane Certificate Pool)
      (name : String)
      → lookup name seen ≡ none
      → Any (λ (n : String). n ≡ name) names
      → IsUnheard name d
      → remove_unseen names seen d ≡ blocked
  unfolding remove_unseen
  removal_blocks [] seen d name u here h = elim here [ ]
  removal_blocks (n ∷ names) seen d name u (inl same) h =
      let u' : lookup n seen ≡ none = ap (λ (k : String). lookup k seen) same ∙ u in
      let h' : IsUnheard n d = ap (λ (k : String). lookup k d.listener_end) same ∙ h in
      rw (u', remove_unseen, remove_unheard n d h') refl
  removal_blocks (n ∷ names) seen d name u (inr later) h = elim (Option-cases (lookup n seen)) [
    | inr (b, q) ↦ rw (q, remove_unseen) (removal_blocks names seen d name u later h)
    | inl q ↦ elim (remove_other n name d h) [
      | inl stuck ↦ rw (q, remove_unseen, stuck) refl
      | inr (d', done, h') ↦
          rw (q, remove_unseen, done) (removal_blocks names seen d' name u later h')
    ]
  ]

  -- Where the socket of a listener in the table could not be opened, handleListeners blocks for ever
  -- when the control plane sends no listeners any more, whatever the other listeners are.
  pub failed_listener_blocks :
      {Message : Type 0} (unmarshal : Message → Result String Listener)
      (listen : String → Option String) (name e : String) (address : SocketAddress)
      (d : Dataplane Certificate Pool)
      → listen (host_port address) ≡ some e
      → Any (λ (n : String). n ≡ name) (listener_names d)
      → handle_listeners unmarshal [] (create_listener listen name address d) ≡ blocked
  unfolding handle_listeners add_listeners create_listener lookup
  failed_listener_blocks unmarshal listen name e address d failed there = rw failed (
      ap without_error (
        removal_blocks (listener_names d) []
          (record d { listener_end = insert name unheard d.listener_end }) name refl there
          (lookup-insert_self name unheard d.listener_end)))
