-- ===== src/PeerClient.antt =====
-- The client of a remote peer, pkg/controlplane/peer/client.go. `getResponse` asks all gateways in
-- goroutines of their own, which hand their results over a channel without a buffer while they hold a
-- lock: its goroutines are modelled as steps, each up to the next operation on the lock or the channel.
pub mod Deadlock
pub mod Kept
pub mod Answers
use clusterlink.Common.{
  ℕ, zero, suc, String, Bool, true, false, not, Option, none, some, List, [], ◌∷◌, ◌++◌, Result, ok,
  err, ◌>>=◌, nat_eq, ltb, if◌then◌else◌, string_eq,
}
use clusterlink.Common.Maps.{Map, lookup}
use clusterlink.Authz.Server.{access_token_header, peer_labels_custom_header}

-- A goroutine: in its request, before the lock, at the send with the lock, after the send, and ended.
pub data Phase : Type 0 where
  calling waiting sending sent ended : Phase

-- The caller: in its loop with the rounds left and the errors so far, before it takes the lock with a
-- response, returned, and returned with a nil response and a nil error.
pub data Main (R : Type 0) : Type 0 where
  collecting : ℕ → List String → Main R
  marking : R → Main R
  returned : Result (List String) R → Main R
  returned_nil : Main R

pub record Calls (R : Type 0) : Type 0 where
  pub phase : ℕ → Phase
  pub locked : Bool
  pub is_done : Bool
  pub main : Main R

pub data Action : Type 0 where
  respond lock receive unlock : ℕ → Action
  mark fail : Action

abbrev pub set_phase : ℕ → Phase → (ℕ → Phase) → ℕ → Phase
set_phase i x phase j = if nat_eq i j then x else phase j

-- `outcome i` is what `getRespFunc` returns for gateway `i`.
module _ {R : Type 0} (outcome : ℕ → Result String R) where
  -- The goroutines of `n` gateways were started, and the caller is before its loop.
  abbrev pub started : ℕ → Calls R
  started n = record {
    phase = λ i. if ltb i n then calling else ended;
    locked = false;
    is_done = false;
    main = collecting n [];
  }

  abbrev pub single : Result String R → Result (List String) R
  single (ok r) = ok r
  single (err e) = err (e ∷ [])

  -- One gateway is asked by the caller itself, and what it returns is returned.
  unfoldable pub start_calls : ℕ → Calls R
  start_calls zero = started zero
  start_calls (suc zero) = record {
    phase = λ i. ended;
    locked = false;
    is_done = false;
    main = returned (single (outcome zero));
  }
  start_calls (suc (suc n)) = started (suc (suc n))

  abbrev pub to_phase : ℕ → Phase → Calls R → Calls R
  to_phase i x c = record c { phase = set_phase i x c.phase }

  abbrev pub respond_at : ℕ → Phase → Calls R → Option (Calls R)
  respond_at i calling c = some (to_phase i waiting c)
  respond_at i waiting c = none
  respond_at i sending c = none
  respond_at i sent c = none
  respond_at i ended c = none

  -- lock.Lock() and `if done`, with the unlock of the return.
  abbrev pub lock_at : ℕ → Phase → Bool → Bool → Calls R → Option (Calls R)
  lock_at i waiting false true c = some (to_phase i ended c)
  lock_at i waiting false false c = some (record (to_phase i sending c) { locked = true })
  lock_at i waiting true d c = none
  lock_at i calling l d c = none
  lock_at i sending l d c = none
  lock_at i sent l d c = none
  lock_at i ended l d c = none

  abbrev pub received : ℕ → ℕ → List String → Result String R → Calls R → Calls R
  received i k es (err e) c = record (to_phase i sent c) { main = collecting k (es ++ (e ∷ [])) }
  received i k es (ok r) c = record (to_phase i sent c) { main = marking r }

  -- The send of a goroutine meets the receive of the caller.
  abbrev pub receive_at : ℕ → Phase → Main R → Calls R → Option (Calls R)
  receive_at i sending (collecting (suc k) es) c = some (received i k es (outcome i) c)
  receive_at i sending (collecting zero es) c = none
  receive_at i sending (marking r) c = none
  receive_at i sending (returned r) c = none
  receive_at i sending returned_nil c = none
  receive_at i calling m c = none
  receive_at i waiting m c = none
  receive_at i sent m c = none
  receive_at i ended m c = none

  abbrev pub unlock_at : ℕ → Phase → Calls R → Option (Calls R)
  unlock_at i sent c = some (record (to_phase i ended c) { locked = false })
  unlock_at i calling c = none
  unlock_at i waiting c = none
  unlock_at i sending c = none
  unlock_at i ended c = none

  abbrev pub mark_in : Main R → Bool → Calls R → Option (Calls R)
  mark_in (marking r) false c = some (record c { is_done = true; main = returned (ok r) })
  mark_in (marking r) true c = none
  mark_in (collecting k es) l c = none
  mark_in (returned r) l c = none
  mark_in returned_nil l c = none

  -- The joined error is nil where no error was joined.
  abbrev pub fail_in : Main R → Calls R → Option (Calls R)
  fail_in (collecting zero []) c = some (record c { main = returned_nil })
  fail_in (collecting zero (e ∷ es)) c = some (record c { main = returned (err (e ∷ es)) })
  fail_in (collecting (suc k) es) c = none
  fail_in (marking r) c = none
  fail_in (returned r) c = none
  fail_in returned_nil c = none

  -- One step, if the action is possible.
  abbrev pub step : Action → Calls R → Option (Calls R)
  step (respond i) c = respond_at i (c.phase i) c
  step (lock i) c = lock_at i (c.phase i) c.locked c.is_done c
  step (receive i) c = receive_at i (c.phase i) c.main c
  step (unlock i) c = unlock_at i (c.phase i) c
  step mark c = mark_in c.main c.locked c
  step fail c = fail_in c.main c

  -- A run: the actions that are possible one after the other.
  unfoldable pub run : List Action → Calls R → Option (Calls R)
  run [] c = some c
  run (a ∷ actions) c = elim (step a c) [ none ↦ none | some c' ↦ run actions c' ]

-- `jsonapi.Response`
pub record Response : Type 0 where
  pub status : ℕ
  pub headers : Map String String
  pub body : String

pub data ClientError : Type 0 where
  all_failed : List String → ClientError
  bad_status : ℕ → String → ClientError
  cannot_encode : String → ClientError
  cannot_decode : String → ClientError

-- `Headers.Get`, with the empty text for a missing header.
abbrev pub header_value : String → Response → String
header_value key r = elim (lookup key r.headers) [ none ↦ "" | some v ↦ v ]

abbrev pub check_ok : Response → Result ClientError Response
check_ok r = if not (nat_eq r.status 200) then err (bad_status r.status r.body) else ok r

-- `Authorize`, after the request was encoded, from what `getResponse` returns for a peer that has a
-- gateway.
unfoldable pub authorize :
    Result String String → (String → Result (List String) Response) → Result ClientError String
authorize (err e) get_response = err (cannot_encode e)
authorize (ok body) get_response = elim (get_response body) [
  | err es ↦ err (all_failed es)
  | ok r ↦ check_ok r >>= λ r. ok (header_value access_token_header r)
]

-- `GetHeartbeat`, for a peer that has a gateway; `decode` is the Base64 and JSON decoder.
unfoldable pub get_heartbeat :
    {Labels : Type 0}
    → (String → Result String Labels)
    → Result (List String) Response
    → Result ClientError Labels
get_heartbeat decode (err es) = err (all_failed es)
get_heartbeat decode (ok r) = check_ok r >>= λ r.
    elim (decode (header_value peer_labels_custom_header r)) [
      | err e ↦ err (cannot_decode e)
      | ok labels ↦ ok labels
    ]
