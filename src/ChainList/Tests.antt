-- ===== src/ChainList/Tests.antt =====
-- Runs of src/chain_list.rs, and the theorems about it at a concrete list of chains.
use mintpool.Prelude.{ℕ, ◌≡◌, ◌↔◌, refl, String, true, [], ◌∷◌, Option, none, ok, ◌==◌}
use mintpool.Prelude.Int.{pos}
use mintpool.Prelude.Decimal.{show}
use mintpool.Prelude.Utf8.{starts_with}
use mintpool.ChainList.{Chain, env_name, get_rpc_url, Connections}
use mintpool.ChainList.Variables.{has_variable}
use mintpool.ChainList.Laws.{IsFirst, get_rpc_url-ok_iff}

abbrev zora : Chain
zora = record {
  name = "Zora";
  chain = "ETH";
  rpc = "https://rpc.zora.energy" ∷ "wss://rpc.zora.energy" ∷ [];
  chain_id = 7777777;
  network_id = pos 7777777;
}

abbrev unset : String → Option String
unset name = none

has_variable_run : has_variable "https://mainnet.infura.io/v3/${INFURA_API_KEY}" ≡ true
unfolding has_variable
has_variable_run = refl

env_name_run : env_name 1 ≡ "CHAIN_1_RPC_WSS"
unfolding show
env_name_run = refl

get_rpc_url-ok_iff_example :
    (get_rpc_url unset (zora ∷ []) 7777777 ≡ ok "wss://rpc.zora.energy") ↔ (
      (chain : Chain) × IsFirst (λ c. c.chain_id == 7777777) (zora ∷ []) chain
      × IsFirst (starts_with "ws") chain.rpc "wss://rpc.zora.energy")
get_rpc_url-ok_iff_example =
    get_rpc_url-ok_iff unset (zora ∷ []) 7777777 "wss://rpc.zora.energy" refl

abbrev none_made : Connections ℕ
none_made = record { made = []; cached = [] }
