-- ===== src/Network/Claims.antt =====
-- Two nodes together: from a mint that one node sees on chain (src/controller.rs, src/p2p.rs) to the
-- storage of another node that trusts it.
use mintpool.Prelude.{
  ℕ, ◌≡◌, refl, ap, ◌∙◌, String, true, List, [], ◌∷◌, ◌++◌, none, some, ok, any, str_eq,
  if◌then◌else◌,
}
use mintpool.Config.{check, trust}
use mintpool.Types.Data.{InclusionClaim, PremintName}
use mintpool.Storage.Store.{mark_seen_on_chain}
use mintpool.Controller.State.{
  Channel, SwarmCommand, mint_seen_onchain, ControllerCommands, Env, State, send_swarm,
}
use mintpool.Controller.Events.{
  mark, is_trusted, onchain_claim_in, handle_event_onchain_claim, handle_event,
}
use mintpool.Controller.Commands
use mintpool.Network.Topics.{TopicLaws, claims_topic}
use mintpool.Network.State.{publish, Libs, LibsLaws}
use mintpool.Network.Gossip.{message, publish_text, broadcast_claim, on_premint}
use mintpool.Network.Delivery.{with_event, on_message-claim}
use mintpool.Network.Events.{gossipsub, handle_swarm_event}
use mintpool.Network.Commands.{handle_command}
use mintpool.Network.Pool.{shared, Peer}

module _ (env : Env) (l : Libs) where
  abbrev libs : Libs
  libs = shared env l

  -- From the command to resolve a mint at one node to the other node's storage: the first node
  -- marks what the claim names and tells its swarm, which publishes the claim; the other swarm
  -- hands it on as a claim of the peer that it came from, and the other controller marks it too.
  pub record IsSpread (claim : InclusionClaim) (now : ℕ) (channel : Channel) (source : String)
      (a b : Peer) : Type 0 where
    pub sender : State
    pub receiver : State
    pub topic : String
    pub content : List ℕ
    pub commanded :
        Commands.handle_command env a.controller now
          (ControllerCommands.resolve_onchain_mint claim)
          a.state
        ≡ some (ok tt, sender)
    pub marked : sender.db ≡ (mark_seen_on_chain a.controller.store claim a.state.db).1
    pub told_swarm : sender.sent ≡ a.state.sent ++ SwarmCommand.send_onchain_mint_found claim ∷ []
    pub published :
        (handle_command libs a.swarm_controller a.view
          (SwarmCommand.send_onchain_mint_found claim)
          a.node).calls
        ≡ a.node.calls ++ publish topic content ∷ []
    pub delivered :
        handle_swarm_event libs b.swarm_controller b.view channel none
          (gossipsub (
            message (record {
              topic = l.topic_texts.topic_hash topic;
              content = content;
              propagation_source = source;
            })))
          b.node
        ≡ with_event (mint_seen_onchain (record { claim = claim; from_peer_id = source })) b.node
    pub handled :
        handle_event env b.controller
          (mint_seen_onchain (record { claim = claim; from_peer_id = source }))
          b.state
        ≡ some receiver
    pub marked_there : receiver.db ≡ (mark_seen_on_chain b.controller.store claim b.state.db).1

  commanded-check :
      (claim : InclusionClaim) (now : ℕ) (a : Peer)
      → a.controller.config.chain_inclusion_mode ≡ check
      → a.state.swarm_open ≡ true
      → Commands.handle_command env a.controller now
          (ControllerCommands.resolve_onchain_mint claim)
          a.state
        ≡ some (
          ok tt,
          record {
            db = (mark_seen_on_chain a.controller.store claim a.state.db).1;
            sent = a.state.sent ++ SwarmCommand.send_onchain_mint_found claim ∷ [];
            replies = a.state.replies;
            swarm_open = true;
          },
        )
  unfolding Commands.handle_command Commands.announce_mint send_swarm mark
  commanded-check claim now a checks receives = rw (checks, receives) refl

  published-claim :
      (claim : InclusionClaim) (text : String) (a : Peer)
      → l.claim_to_json claim ≡ ok text
      → (handle_command libs a.swarm_controller a.view
          (SwarmCommand.send_onchain_mint_found claim)
          a.node).calls
        ≡ a.node.calls
          ++ publish (claims_topic l.topic_texts (record { name = claim.kind })) (l.as_bytes text)
            ∷ []
  unfolding handle_command broadcast_claim
  published-claim claim text a writes =
      ap
        (λ written.
          (publish_text libs (claims_topic l.topic_texts (record { name = claim.kind })) written
            a.node).1.calls)
        writes

  delivered-claim :
      LibsLaws libs
      → TopicLaws l.topic_texts
      → (claim : InclusionClaim) (text source : String) (channel : Channel) (b : Peer)
      → l.claim_to_json claim ≡ ok text
      → b.node.controller_open ≡ true
      → any (λ (m : PremintName). str_eq m.name claim.kind) b.swarm_controller.premint_names ≡ true
      → handle_swarm_event libs b.swarm_controller b.view channel none
          (gossipsub (
            message (record {
              topic =
                  l.topic_texts.topic_hash
                    (claims_topic l.topic_texts (record { name = claim.kind }));
              content = l.as_bytes text;
              propagation_source = source;
            })))
          b.node
        ≡ with_event (mint_seen_onchain (record { claim = claim; from_peer_id = source })) b.node
  unfolding handle_swarm_event
  delivered-claim laws topic_laws claim text source channel b writes is_open named =
      ap (λ r. r.1)
        (on_message-claim libs laws topic_laws b.swarm_controller b.view claim text source b.node
          writes is_open)
      ∙ ap
          (λ n.
            (if n
              then (
                ok tt,
                with_event (mint_seen_onchain (record { claim = claim; from_peer_id = source }))
                    b.node,
              )
              else on_premint libs b.swarm_controller b.view (env.json.from_json text) b.node).1)
          named

  handled-trust :
      (claim : InclusionClaim) (source : String) (b : Peer)
      → b.controller.config.chain_inclusion_mode ≡ trust
      → is_trusted env b.controller source ≡ true
      → handle_event env b.controller
          (mint_seen_onchain (record { claim = claim; from_peer_id = source }))
          b.state
        ≡ some (record {
          db = (mark_seen_on_chain b.controller.store claim b.state.db).1;
          sent = b.state.sent;
          replies = b.state.replies;
          swarm_open = b.state.swarm_open;
        })
  unfolding handle_event handle_event_onchain_claim onchain_claim_in mark
  handled-trust claim source b trusts known = rw (trusts, known) refl

  -- A mint that a node in the mode Check sees on chain goes to `mark_seen_on_chain` of that node's
  -- storage and of the storage of every node in the mode Trust that gets its message, names the
  -- claim's kind and trusts the peer that the message came from. Both nodes run; the claim is
  -- written as JSON; topics and texts are as the libraries have them.
  pub resolve_onchain_mint-IsSpread :
      LibsLaws libs
      → TopicLaws l.topic_texts
      → (claim : InclusionClaim) (text : String) (now : ℕ) (channel : Channel) (source : String)
        (a b : Peer)
      → l.claim_to_json claim ≡ ok text
      → a.controller.config.chain_inclusion_mode ≡ check
      → a.state.swarm_open ≡ true
      → b.node.controller_open ≡ true
      → any (λ (m : PremintName). str_eq m.name claim.kind) b.swarm_controller.premint_names ≡ true
      → b.controller.config.chain_inclusion_mode ≡ trust
      → is_trusted env b.controller source ≡ true
      → IsSpread claim now channel source a b
  resolve_onchain_mint-IsSpread laws topic_laws claim text now channel source a b writes checks
        receives is_open named trusts known =
      record {
        sender = record {
          db = (mark_seen_on_chain a.controller.store claim a.state.db).1;
          sent = a.state.sent ++ SwarmCommand.send_onchain_mint_found claim ∷ [];
          replies = a.state.replies;
          swarm_open = true;
        };
        receiver = record {
          db = (mark_seen_on_chain b.controller.store claim b.state.db).1;
          sent = b.state.sent;
          replies = b.state.replies;
          swarm_open = b.state.swarm_open;
        };
        topic = claims_topic l.topic_texts (record { name = claim.kind });
        content = l.as_bytes text;
        commanded = commanded-check claim now a checks receives;
        marked = refl;
        told_swarm = refl;
        published = published-claim claim text a writes;
        delivered =
            delivered-claim laws topic_laws claim text source channel b writes is_open named;
        handled = handled-trust claim source b trusts known;
        marked_there = refl;
      }
