-- ===== src/Network/Requests.antt =====
-- src/p2p.rs: the requests to sync and their answers.
use mintpool.Prelude.{ℕ, String, List, Option, none, some, Result, ok, err}
use mintpool.Types.Data.{Report, message}
use mintpool.Types.Premint.{PremintTypes}
use mintpool.Storage.Query.{QueryOptions}
use mintpool.Controller.State.{Channel, sync_request, sync_response}
use mintpool.Network.State.{
  View, SyncResponse, premints, error, send_request, send_response, Libs, SwarmController, Node,
  call, try_call, send_event,
}
use mintpool.Network.Peers.{make_network_state}

-- A request comes with its id and the channel of its answer; the other events are only logged.
pub data SyncMessage : Type 0 where
  request : ℕ → QueryOptions → ℕ → SyncMessage
  response : ℕ → SyncResponse → SyncMessage
  other : SyncMessage

-- What the controller does with the oneshot channel of a sync request: it drops it or sends on it.
abbrev pub Received : Type 0
Received = Option (Result (List PremintTypes) Report)

abbrev pub received_premints : Received → Result (List PremintTypes) Report
received_premints none = err (message "Channel error")
received_premints (some (err e)) = err (message "Query error")
received_premints (some (ok ps)) = ok ps

module _ (libs : Libs) (view : View) where
  abbrev pub sync_with : Option String → QueryOptions → Node → Node
  sync_with none query n = n
  sync_with (some peer) query n = call (send_request peer query) n

  -- A random peer of the mesh is asked.
  unfoldable pub do_sync : SwarmController → QueryOptions → Node → Node
  unfolding call make_network_state
  do_sync ctl query n =
      sync_with (libs.choose (make_network_state libs ctl view).gossipsub_peers) query n

  -- `channel` is the oneshot channel made for the controller's answer.
  abbrev pub query_result :
      Received → Result (Unit {0}) Report × Node → Result (List PremintTypes) Report × Node
  query_result received (ok u, n) = (received_premints received, n)
  query_result received (err e, n) = (err e, n)

  unfoldable pub make_sync_response_query :
      Channel → Received → QueryOptions → Node → Result (List PremintTypes) Report × Node
  unfolding send_event
  make_sync_response_query channel received query n =
      query_result received (send_event "Controller error" (sync_request query channel) n)

  abbrev pub response_of : Result (List PremintTypes) Report → SyncResponse
  response_of (ok ps) = premints ps
  response_of (err e) = error (libs.report_to_string e)

  unfoldable pub make_sync_response : Channel → Received → QueryOptions → Node → SyncResponse × Node
  unfolding make_sync_response_query
  make_sync_response channel received query n =
      let result = make_sync_response_query channel received query n in
      (response_of result.0, result.1)

  unfoldable pub on_response : SyncResponse → Node → Result (Unit {0}) Report × Node
  unfolding send_event
  on_response (premints ps) n = send_event "channel closed" (sync_response ps) n
  on_response (error text) n = (ok tt, n)

  unfoldable pub handle_request_response_event :
      Channel → Received → SyncMessage → Node → Result (Unit {0}) Report × Node
  unfolding make_sync_response try_call on_response
  handle_request_response_event channel received (request id query answer) n =
      let result = make_sync_response channel received query n in
      try_call libs (send_response answer result.0) result.1
  handle_request_response_event channel received (response id r) n = on_response r n
  handle_request_response_event channel received other n = (ok tt, n)
