-- ===== src/Network/Gossip.antt =====
-- src/p2p.rs: what is published and received on the topics of gossip.
use mintpool.Prelude.{String, List, Result, ok, err, any, str_eq, if◌then◌else◌}
use mintpool.Types.Data.{Report, InclusionClaim}
use mintpool.Types.Premint.{PremintTypes, metadata}
use mintpool.Prelude.{ℕ}
use mintpool.Controller.State.{premint_received, mint_seen_onchain}
use mintpool.Network.Addresses.{Multiaddr}
use mintpool.Network.Topics.{announce_topic, msg_topic, claims_topic, claims_topic_hashes}
use mintpool.Network.State.{View, publish, Libs, SwarmController, Node, try_call, send_event}
use mintpool.Network.Peers.{safe_dial}

-- A message as gossipsub hands it over: the hash of its topic, its bytes, and the peer that sent
-- it on.
pub record Message : Type 0 where
  pub topic : String
  pub content : List ℕ
  pub propagation_source : String

-- The other events are only logged.
pub data GossipEvent : Type 0 where
  message : Message → GossipEvent
  subscribed : String → String → GossipEvent
  unsubscribed : String → String → GossipEvent
  not_supported : String → GossipEvent

module _ (libs : Libs) where
  -- What is published of a text, once it is made.
  unfoldable pub publish_text :
      String → Result String Report → Node → Result (Unit {0}) Report × Node
  unfolding try_call
  publish_text topic (err e) n = (err e, n)
  publish_text topic (ok msg) n = try_call libs (publish topic (libs.as_bytes msg)) n

  unfoldable pub broadcast_message : PremintTypes → Node → Result (Unit {0}) Report × Node
  unfolding publish_text metadata msg_topic
  broadcast_message p n =
      publish_text (msg_topic libs.topic_texts (metadata libs.formats p).kind) (libs.json.to_json p)
        n

  unfoldable pub broadcast_claim : InclusionClaim → Node → Result (Unit {0}) Report × Node
  unfolding publish_text claims_topic
  broadcast_claim claim n =
      publish_text (claims_topic libs.topic_texts (record { name = claim.kind }))
        (libs.claim_to_json claim) n

  module _ (ctl : SwarmController) (view : View) where
    unfoldable pub on_announce : Result Multiaddr Report → Node → Result (Unit {0}) Report × Node
    unfolding safe_dial
    on_announce (err e) n = (err e, n)
    on_announce (ok addr) n = (ok tt, safe_dial libs ctl view addr n)

    unfoldable pub on_claim :
        String → Result InclusionClaim Report → Node → Result (Unit {0}) Report × Node
    unfolding send_event
    on_claim source (err e) n = (err e, n)
    on_claim source (ok claim) n =
        send_event "failed to send mint seen onchain event"
          (mint_seen_onchain (record { claim = claim; from_peer_id = source })) n

    -- A premint that does not parse is only logged.
    unfoldable pub on_premint : Result PremintTypes Report → Node → Result (Unit {0}) Report × Node
    unfolding send_event
    on_premint (err e) n = (ok tt, n)
    on_premint (ok p) n = send_event "failed to send premint event" (premint_received p) n

    unfoldable pub on_message : Message → Node → Result (Unit {0}) Report × Node
    unfolding on_announce on_claim on_premint announce_topic claims_topic_hashes
    on_message m n =
        let msg = libs.from_utf8_lossy m.content in
        if str_eq m.topic (libs.topic_texts.topic_hash announce_topic)
        then on_announce (libs.addr_from_str msg) n
        else if any (λ h. str_eq h m.topic) (claims_topic_hashes libs.topic_texts ctl.premint_names)
        then on_claim m.propagation_source (libs.claim_from_json msg) n
        else on_premint (libs.json.from_json msg) n

    unfoldable pub handle_gossipsub_event : GossipEvent → Node → Result (Unit {0}) Report × Node
    unfolding on_message
    handle_gossipsub_event (message m) n = on_message m n
    handle_gossipsub_event (subscribed peer topic) n = (ok tt, n)
    handle_gossipsub_event (unsubscribed peer topic) n = (ok tt, n)
    handle_gossipsub_event (not_supported peer) n = (ok tt, n)

  abbrev pub id_of_premint : Result PremintTypes Report → String
  id_of_premint (ok p) = libs.digest (metadata libs.formats p).id
  id_of_premint (err e) = "likely_spam"

  -- The id by which gossipsub drops duplicates.
  unfoldable pub gossipsub_message_id : Message → String
  unfolding announce_topic metadata
  gossipsub_message_id m =
      let s = libs.from_utf8_lossy m.content in
      if str_eq m.topic (libs.topic_texts.topic_hash announce_topic)
      then libs.digest s
      else id_of_premint (libs.json.from_json s)
