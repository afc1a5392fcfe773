-- ===== src/Network.antt =====
-- src/p2p.rs and src/multiaddr_ext.rs
pub mod Addresses
pub mod Topics
pub mod State
pub mod Peers
pub mod Gossip
pub mod Requests
pub mod Events
pub mod Commands
pub mod Creation
pub mod Delivery
pub mod MessageIds
pub mod Fixtures
pub mod Subscriptions
pub mod Bounds
pub mod Pool
pub mod Claims
mod Tests
