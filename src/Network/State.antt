-- ===== src/Network/State.antt =====
-- src/p2p.rs: what the swarm reports, the calls made of it, and what the swarm controller holds.
use mintpool.Prelude.{
  ℕ, ◌≡◌, String, Bool, true, not, List, [], ◌∷◌, ◌++◌, Option, Result, ok, err, if◌then◌else◌,
}
use mintpool.Config.{Config}
use mintpool.Types.Data.{Report, message, Formats, PremintName, InclusionClaim}
use mintpool.Types.Premint.{PremintTypes, Json}
use mintpool.Storage.Query.{QueryOptions}
use mintpool.Controller.State.{Channel, P2pEvent}
use mintpool.Network.Addresses.{Multiaddr}
use mintpool.Network.Topics.{TopicTexts}

pub data NatStatus : Type 0 where
  public : Multiaddr → NatStatus
  private : NatStatus
  unknown : NatStatus

pub record NetworkState : Type 0 where
  pub local_peer_id : String
  pub num_peers : ℕ
  pub dht_peers : List (List Multiaddr)
  pub gossipsub_peers : List String
  pub external_addresses : List Multiaddr
  pub providing : List (List ℕ)
  pub listeners : List Multiaddr
  pub nat_status : NatStatus

pub record MintpoolNodeInfo : Type 0 where
  pub peer_id : String
  pub addr : List Multiaddr

pub data SyncResponse : Type 0 where
  premints : List PremintTypes → SyncResponse
  error : String → SyncResponse

-- What the swarm reports when a handler begins: nothing polls it before the handler is done. The
-- buckets of the DHT are the addresses that each holds.
pub record View : Type 0 where
  pub local_peer_id : String
  pub num_peers : ℕ
  pub external_addresses : List Multiaddr
  pub listeners : List Multiaddr
  pub kbuckets : List (List (List Multiaddr))
  pub provided : List (List ℕ)
  pub all_mesh_peers : List String
  pub topics : List String
  pub autonat_status : NatStatus

-- `DialOpts`: a peer under the condition DisconnectedAndNotDialing, or a bare address.
pub data DialOpts : Type 0 where
  to_peer : String → List Multiaddr → DialOpts
  to_address : Multiaddr → DialOpts

-- The calls of the swarm and its behaviours that change something.
pub data Call : Type 0 where
  listen_on : Multiaddr → Call
  dial : DialOpts → Call
  close_connection : ℕ → Call
  add_external_address : Multiaddr → Call
  remove_external_address : Multiaddr → Call
  publish : String → List ℕ → Call
  subscribe : String → Call
  unsubscribe : String → Call
  start_providing : List ℕ → Call
  stop_providing : List ℕ → Call
  get_providers : List ℕ → Call
  bootstrap : Call
  send_request : String → QueryOptions → Call
  send_response : ℕ → SyncResponse → Call
  add_relay_address : String → Multiaddr → Call
  set_peer_rtt : String → ℕ → ℕ → Call
  random_select : Call

-- What the libraries give. The results of a call may depend on the calls made before it.
pub record Libs : Type 0 where
  pub formats : Formats
  pub json : Json
  pub claim_to_json : InclusionClaim → Result String Report
  pub claim_from_json : String → Result InclusionClaim Report
  pub topic_texts : TopicTexts
  pub as_bytes : String → List ℕ
  pub from_utf8_lossy : List ℕ → String
  pub addr_from_str : String → Result Multiaddr Report
  pub addr_to_string : Multiaddr → String
  pub report_to_string : Report → String
  pub digest : String → String
  pub choose : List String → Option String
  pub succeeds : List Call → Call → Result (Unit {0}) Report

-- What the program relies on: texts are read back from their bytes, and claims from their texts.
pub record LibsLaws (l : Libs) : Type 0 where
  pub from_utf8_lossy-as_bytes : (s : String) → l.from_utf8_lossy (l.as_bytes s) ≡ s
  pub claim_from_json-to_json :
      (c : InclusionClaim) (s : String) → l.claim_to_json c ≡ ok s → l.claim_from_json s ≡ ok c

-- What does not change: the configuration and the names made of it.
pub record SwarmController : Type 0 where
  pub config : Config
  pub premint_names : List PremintName

-- The replies on oneshot channels.
pub data SwarmReply : Type 0 where
  network_state : NetworkState → SwarmReply
  node_info : MintpoolNodeInfo → SwarmReply

-- The calls made of the swarm, the events sent to the controller and the replies, oldest first, and
-- whether the controller still receives.
pub record Node : Type 0 where
  pub calls : List Call
  pub events : List P2pEvent
  pub replies : List (ℕ × SwarmReply)
  pub controller_open : Bool

unfoldable pub call : Call → Node → Node
call c n = record {
  calls = n.calls ++ c ∷ [];
  events = n.events;
  replies = n.replies;
  controller_open = n.controller_open;
}

-- A call whose result counts.
unfoldable pub try_call : Libs → Call → Node → Result (Unit {0}) Report × Node
unfolding call
try_call libs c n = (libs.succeeds n.calls c, call c n)

unfoldable pub calls_each {ℓ} : {A : Type ℓ} → (A → Call) → List A → Node → Node
unfolding call
calls_each f [] n = n
calls_each f (a ∷ rest) n = calls_each f rest (call (f a) n)

-- `event_sender.send(...).await.wrap_err(...)`
unfoldable pub send_event : String → P2pEvent → Node → Result (Unit {0}) Report × Node
send_event context e n =
    if n.controller_open
    then (
      ok tt,
      record {
        calls = n.calls;
        events = n.events ++ e ∷ [];
        replies = n.replies;
        controller_open = true;
      },
    )
    else (err (message context), n)

-- `channel.send`; a failure is logged.
unfoldable pub reply : Channel → SwarmReply → Node → Node
reply channel r n =
    if channel.alive
    then record {
      calls = n.calls;
      events = n.events;
      replies = n.replies ++ (channel.name, r) ∷ [];
      controller_open = n.controller_open;
    }
    else n

-- The relay manager is there unless the node is a relay server, as `make_swarm_controller` has it.
abbrev pub has_relay_manager : SwarmController → Bool
has_relay_manager ctl = not ctl.config.enable_relay_server
