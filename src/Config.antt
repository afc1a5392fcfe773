-- ===== src/Config.antt =====
-- src/config.rs
pub mod Laws
use mintpool.Prelude.{
  ℕ, String, Bool, List, [], ◌∷◌, map, Option, none, some, Result, ok, err, filter_map, all,
  if◌then◌else◌, str_eq,
}
use mintpool.Prelude.Split.{split}
use mintpool.Types.Data.{Report, message, PremintName}

pub data BootNodes : Type 0 where
  chain : BootNodes
  custom : List String → BootNodes
  no_nodes : BootNodes

pub data ChainInclusionMode : Type 0 where
  check : ChainInclusionMode
  verify : ChainInclusionMode
  trust : ChainInclusionMode

pub record Config : Type 0 where
  pub secret : String
  pub peer_port : ℕ
  pub connect_external : Bool
  pub db_url : Option String
  pub persist_state : Bool
  pub prune_minted_premints : Bool
  pub api_port : ℕ
  pub peer_limit : ℕ
  pub supported_premint_types : String
  pub chain_inclusion_mode : ChainInclusionMode
  pub supported_chain_ids : String
  pub trusted_peers : Option String
  pub node_id : Option ℕ
  pub external_address : Option String
  pub interactive : Bool
  pub enable_rpc : Bool
  pub admin_api_secret : Option String
  pub rate_limit_rps : ℕ
  pub boot_nodes : BootNodes
  pub sync_lookback_hours : ℕ
  pub enable_relay_server : Bool

abbrev pub comma : ℕ
comma = 44

-- `FromStr for BootNodes`, which never fails; `to_lowercase` is the library's.
unfoldable pub boot_nodes_from_str : (String → String) → String → BootNodes
unfolding split
boot_nodes_from_str to_lowercase s =
    if str_eq (to_lowercase s) "chain"
    then chain
    else if str_eq (to_lowercase s) "none"
    then no_nodes
    else custom (split comma s)

-- `FromStr for ChainInclusionMode`
unfoldable pub mode_from_str : (String → String) → String → Result ChainInclusionMode Report
mode_from_str to_lowercase s =
    if str_eq (to_lowercase s) "check"
    then ok check
    else if str_eq (to_lowercase s) "verify"
    then ok verify
    else if str_eq (to_lowercase s) "trust"
    then ok trust
    else err (message "Invalid chain inclusion mode")

unfoldable pub initial_network_ip : Config → String
initial_network_ip c = if c.connect_external then "0.0.0.0" else "127.0.0.1"

unfoldable pub premint_names : Config → List PremintName
unfolding split
premint_names c = map (λ s. record { name = s }) (split comma c.supported_premint_types)

-- All of the parts, or none when one does not parse: `unwrap` panics.
abbrev pub parse_all : (String → Option ℕ) → List String → Option (List ℕ)
parse_all parse [] = some []
parse_all parse (s ∷ rest) =
    let others = parse_all parse rest in
    elim (parse s) [ none ↦ none | some n ↦ elim others [ none ↦ none | some ns ↦ some (n ∷ ns) ] ]

-- `parse` is `str::parse::<u64>`.
unfoldable pub supported_chains : (String → Option ℕ) → Config → Option (List ℕ)
unfolding split
supported_chains parse c = parse_all parse (split comma c.supported_chain_ids)

-- `peer_id` is `PeerId::from_str`; peers whose id does not parse are left out.
unfoldable pub trusted_peers : (String → Option String) → Config → List String
unfolding split
trusted_peers peer_id c = elim c.trusted_peers [
  | none ↦ []
  | some peers ↦ filter_map peer_id (split comma peers)
]

-- `Config::validate`; none is a panic. `is_chain` tells whether CHAINS has a chain.
unfoldable pub validate : (String → Option ℕ) → (ℕ → Bool) → Config → Option Config
unfolding supported_chains
validate parse is_chain c = elim (supported_chains parse c) [
  | none ↦ none
  | some chains ↦ if all is_chain chains then some c else none
]
