-- ===== src/Network/Creation.antt =====
-- src/p2p.rs: `SwarmController::new`, but for the building of the swarm.
use mintpool.Prelude.{String, Option, none, some, Result, ok, err}
use mintpool.Config
use mintpool.Config.{Config}
use mintpool.Types.Data.{Report}
use mintpool.Network.Addresses.{Multiaddr}
use mintpool.Network.State.{add_external_address, Libs, SwarmController, Node, call}

abbrev add_parsed : Result Multiaddr Report → Node → Node
add_parsed (ok addr) n = call (add_external_address addr) n
add_parsed (err e) n = n

-- The external address that is configured; one that does not parse is only logged.
abbrev add_configured : Libs → Option String → Node → Node
add_configured libs none n = n
add_configured libs (some addr) n = add_parsed (libs.addr_from_str addr) n

-- `built` is what `make_swarm_controller` gives; none is a panic.
unfoldable pub new :
    Libs → Result (Unit {0}) Report → Config → Node → Option (SwarmController × Node)
unfolding call Config.premint_names
new libs (err e) config n = none
new libs (ok built) config n = some (
  record { config = config; premint_names = Config.premint_names config },
  add_configured libs config.external_address n,
)
