-- ===== src/Samples/Calling.antt =====
-- A remote peer with two gateways.
use clusterlink.Common.{
  ℕ, zero, suc, ◌≡◌, refl, String, false, Option, none, some, List, [], ◌∷◌, Result, ok, err,
  length, ◌≤◌, arith,
}
use clusterlink.Dataplane.Forwarder.{
  Round, IsProper, read_failed, end_of_file, Pipe, forward, IsWritten, forward_prefix,
}
use clusterlink.PeerClient.{
  Calls, Action, respond, lock, receive, unlock, mark, start_calls, run, returned,
}
use clusterlink.PeerClient.Deadlock.{bad_run, StillMarking, get_response_deadlock}
use clusterlink.PeerClient.Kept.{IsSound}
use clusterlink.PeerClient.Answers.{get_response-IsSound}

abbrev outcome : ℕ → Result String String
outcome zero = ok "token"
outcome (suc i) = err "unreachable"

get_response_deadlock_example :
    (c : Calls String) × (run outcome bad_run (start_calls outcome 2) ≡ some c)
    × ((actions : List Action) → StillMarking outcome "token" (run outcome actions c))
get_response_deadlock_example = get_response_deadlock outcome "token" 0 refl

-- The goroutine of the second gateway comes late.
abbrev good_run : List Action
good_run = respond 0 ∷ lock 0 ∷ receive 0 ∷ unlock 0 ∷ mark ∷ respond 1 ∷ lock 1 ∷ []

abbrev end_of : Option (Calls String) → Calls String
end_of none = start_calls outcome 0
end_of (some c) = c

finished :
    run outcome good_run (start_calls outcome 2)
    ≡ some (end_of (run outcome good_run (start_calls outcome 2)))
unfolding run start_calls
finished = refl

has_returned : (end_of (run outcome good_run (start_calls outcome 2))).main ≡ returned (ok "token")
unfolding run start_calls
has_returned = refl

get_response-IsSound_example :
    IsSound outcome 2 (end_of (run outcome good_run (start_calls outcome 2))).main
get_response-IsSound_example =
    get_response-IsSound outcome 2 good_run (end_of (run outcome good_run (start_calls outcome 2)))
      finished

abbrev reading : List ℕ → Round
reading bytes = record {
  other_closed = false;
  deadline_error = none;
  bytes = bytes;
  read_error = none;
  write_count = 2;
  write_error = none;
}

abbrev ending : Round
ending = record {
  other_closed = false;
  deadline_error = none;
  bytes = [];
  read_error = some (read_failed end_of_file);
  write_count = 0;
  write_error = none;
}

abbrev fresh : Pipe
fresh = record { written = []; close_signal = false }

abbrev rounds : List Round
rounds = reading (71 ∷ 69 ∷ []) ∷ reading (84 ∷ []) ∷ ending ∷ []

reading-IsProper : (bytes : List ℕ) → length bytes ≤ 2 → IsProper (reading bytes)
reading-IsProper bytes h = record { writes_all = λ q. h; has_none = λ q. absurd (q refl) }

ending-IsProper : IsProper ending
ending-IsProper = record { writes_all = λ q. omega arith; has_none = λ q. refl }

forward_prefix_example : IsWritten rounds fresh (forward rounds fresh)
forward_prefix_example = forward_prefix rounds fresh (
  reading-IsProper (71 ∷ 69 ∷ []) (omega arith),
  (reading-IsProper (84 ∷ []) (omega arith), (ending-IsProper, tt)),
)
