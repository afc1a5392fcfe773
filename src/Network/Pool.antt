-- ===== src/Network/Pool.antt =====
-- Two nodes together: the controller (src/controller.rs) and the swarm controller (src/p2p.rs) of
-- each, wired as src/run.rs has it: what the one sends, the other handles.
use mintpool.Prelude.{ℕ, ◌≡◌, String, List, [], ◌∷◌, ◌++◌, none, some, ok}
use mintpool.Types.Premint.{PremintTypes, metadata}
use mintpool.Storage.Query.{QueryOptions, get_for_id_and_kind}
use mintpool.Controller.State.{
  Channel, SwarmCommand, premint_received, ControllerCommands, Env, Controller, State, sync_request,
  sync_response, premints,
}
use mintpool.Controller.Events.{handle_event, insert_all}
use mintpool.Controller.Commands
use mintpool.Network.State.{
  View, publish, send_request, send_response, SyncResponse, Libs, SwarmController, Node, call,
}
use mintpool.Network.Gossip.{message}
use mintpool.Network.Requests.{request, response}
use mintpool.Network.Delivery.{with_event}
use mintpool.Network.Events.{gossipsub, request_response, handle_swarm_event}
use mintpool.Network.Commands.{handle_command}

-- The libraries of the network, with the texts and JSON of the controller's.
abbrev pub shared : Env → Libs → Libs
shared env l = record l { formats = env.formats; json = env.json }

-- A node: its controller and its swarm controller, what each holds, and what the swarm reports.
pub record Peer : Type 0 where
  pub controller : Controller
  pub state : State
  pub swarm_controller : SwarmController
  pub view : View
  pub node : Node

module _ (env : Env) (l : Libs) where
  abbrev libs : Libs
  libs = shared env l

  -- From the command to broadcast a premint at one node to the other node's database: the command
  -- to the swarm, the message published, the event at the other swarm, the event at the other
  -- controller, and the premint found in the other database.
  pub record IsStoredBy (p : PremintTypes) (now : ℕ) (channel : Channel) (source : String)
      (a b : Peer) : Type 0 where
    pub sender : State
    pub receiver : State
    pub topic : String
    pub content : List ℕ
    pub commanded :
        Commands.handle_command env a.controller now
          (ControllerCommands.broadcast p channel)
          a.state
        ≡ some (ok tt, sender)
    pub told_swarm : sender.sent ≡ a.state.sent ++ SwarmCommand.broadcast p ∷ []
    pub published :
        (handle_command libs a.swarm_controller a.view (SwarmCommand.broadcast p) a.node).calls
        ≡ a.node.calls ++ publish topic content ∷ []
    pub delivered :
        handle_swarm_event libs b.swarm_controller b.view channel none
          (gossipsub (
            message (record {
              topic = l.topic_texts.topic_hash topic;
              content = content;
              propagation_source = source;
            })))
          b.node
        ≡ with_event (premint_received p) b.node
    pub handled : handle_event env b.controller (premint_received p) b.state ≡ some receiver
    pub found :
        get_for_id_and_kind env.json
          (metadata env.formats p).id
          (metadata env.formats p).kind
          receiver.db
        ≡ ok p

  -- From the command to sync at one node over the other node and back: the request sent, the reply of
  -- the other controller, which keeps its database and sends nothing to its swarm, the response sent,
  -- and the insertions at the node that asked.
  pub record IsSyncedFrom (query : QueryOptions) (peer : String) (id answer : ℕ) (channel : Channel)
      (ps : List PremintTypes) (a b : Peer) : Type 0 where
    pub replier : State
    pub asked :
        handle_command libs a.swarm_controller a.view (SwarmCommand.sync query) a.node
        ≡ call (send_request peer query) a.node
    pub replied : handle_event env b.controller (sync_request query channel) b.state ≡ some replier
    pub kept : replier.db ≡ b.state.db
    pub quiet : replier.sent ≡ b.state.sent
    pub listed : replier.replies ≡ b.state.replies ++ (channel.name, premints (ok ps)) ∷ []
    pub answered :
        handle_swarm_event libs b.swarm_controller b.view channel
          (some (ok ps))
          (request_response (request id query answer))
          b.node
        ≡ call
            (send_response answer (SyncResponse.premints ps))
            (with_event (sync_request query channel) b.node)
    pub returned :
        handle_swarm_event libs a.swarm_controller a.view channel none
          (request_response (response id (SyncResponse.premints ps)))
          a.node
        ≡ with_event (sync_response ps) a.node
    pub inserted :
        handle_event env a.controller (sync_response ps) a.state
        ≡ some (insert_all env a.controller ps a.state)
