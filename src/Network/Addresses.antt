-- ===== src/Network/Addresses.antt =====
-- src/multiaddr_ext.rs: what is read off a multiaddress, a list of protocols.
use mintpool.Prelude.{
  ◌≡◌, refl, String, Bool, true, false, List, [], ◌∷◌, ◌++◌, Option, none, some, any, str_eq, ◌&&◌,
}

-- The components that the program tells apart; `other` has the text of any other one.
pub data Protocol : Type 0 where
  p2p : String → Protocol
  p2p_circuit : Protocol
  other : String → Protocol

abbrev pub Multiaddr : Type 0
Multiaddr = List Protocol

abbrev pub protocol_eq : Protocol → Protocol → Bool
protocol_eq (p2p a) (p2p b) = str_eq a b
protocol_eq p2p_circuit p2p_circuit = true
protocol_eq (other a) (other b) = str_eq a b
protocol_eq _ _ = false

-- The derived `==` of addresses.
unfoldable pub addr_eq : Multiaddr → Multiaddr → Bool
addr_eq [] [] = true
addr_eq (a ∷ as') (b ∷ bs) = protocol_eq a b && addr_eq as' bs
addr_eq _ _ = false

-- One step of the loop in `peer_id`.
abbrev pub or_peer : Option String → Protocol → Option String
or_peer last (p2p key) = some key
or_peer last p2p_circuit = last
or_peer last (other text) = last

unfoldable pub peer_id_from : Option String → Multiaddr → Option String
peer_id_from last [] = last
peer_id_from last (component ∷ rest) = peer_id_from (or_peer last component) rest

unfoldable pub peer_id : Multiaddr → Option String
unfolding peer_id_from
peer_id addr = peer_id_from none addr

abbrev pub is_circuit : Protocol → Bool
is_circuit p2p_circuit = true
is_circuit (p2p key) = false
is_circuit (other text) = false

unfoldable pub is_relayed : Multiaddr → Bool
is_relayed addr = any is_circuit addr

peer_id_from-append_p2p :
    (last : Option String) (addr : Multiaddr) (key : String)
    → peer_id_from last (addr ++ p2p key ∷ []) ≡ some key
unfolding peer_id_from
peer_id_from-append_p2p last [] key = refl
peer_id_from-append_p2p last (component ∷ addr) key =
    peer_id_from-append_p2p (or_peer last component) addr key

-- Whatever an address names, the peer that is put behind it is the one that it is dialled as.
pub peer_id-append_p2p :
    (addr : Multiaddr) (key : String) → peer_id (addr ++ p2p key ∷ []) ≡ some key
unfolding peer_id
peer_id-append_p2p addr key = peer_id_from-append_p2p none addr key
