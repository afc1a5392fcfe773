-- ===== src/Chain/BootNodes.antt =====
-- src/chain.rs: `get_contract_boot_nodes`.
use mintpool.Prelude.{
  ℕ, ◌≡◌, refl, ap, String, Bool, true, false, List, [], ◌∷◌, map, Option, none, some, Result, ok,
  ◌>>=◌, filter, filter_map, to_option, zip, Bool-cases, inl, inr,
}
use mintpool.Types.Data.{Report}
use mintpool.Zora.Claims.{Filter, Log}
use mintpool.Rules.Context.{Provider, SolCall, view_contract_call}

abbrev pub bootnodes_contract_address : ℕ
bootnodes_contract_address = 0x7777770105719d36De7E5A0a26536D6482234Ccd

abbrev pub bootnodes_contract_deploy_block : ℕ
bootnodes_contract_deploy_block = 13699230

-- What the generated bindings of the contract's ABI and the provider give.
pub record BootNodesContract : Type 0 where
  pub node_added_signature : String
  pub decode_node_added : List ℕ → List ℕ → Result String Report
  pub is_trusted_node : List String → SolCall (List Bool)
  pub get_logs : Provider → Filter → Result (List Log) Report

abbrev pub keep_trusted : Bool × String → Option String
keep_trusted (true, node) = some node
keep_trusted (false, node) = none

module _ (contract : BootNodesContract) where
  abbrev pub boot_nodes_filter : Filter
  boot_nodes_filter = record {
    address = bootnodes_contract_address;
    event_signature = contract.node_added_signature;
    from_block = some bootnodes_contract_deploy_block;
  }

  -- The nodes of the logs that decode.
  abbrev pub added_nodes : List Log → List String
  added_nodes logs =
      filter_map (λ log. to_option (contract.decode_node_added log.topics log.log_data)) logs

  -- `rpc` is `CHAINS.get_rpc(7777777)`.
  unfoldable pub get_contract_boot_nodes : Result Provider Report → Result (List String) Report
  unfolding view_contract_call
  get_contract_boot_nodes rpc = do
    provider ← rpc
    logs ← contract.get_logs provider boot_nodes_filter
    result ←
        view_contract_call (contract.is_trusted_node (added_nodes logs)) provider
          bootnodes_contract_address
    ok (filter_map keep_trusted (zip result (added_nodes logs)))

zip-keep_trusted :
    (is_trusted : String → Bool) (nodes : List String)
    → filter_map keep_trusted (zip (map is_trusted nodes) nodes) ≡ filter is_trusted nodes
zip-keep_trusted is_trusted [] = refl
zip-keep_trusted is_trusted (n ∷ nodes) = elim (Bool-cases (is_trusted n)) [
  | inl y ↦ simp (y, filter_map) (ap (λ ns. n ∷ ns) (zip-keep_trusted is_trusted nodes))
  | inr d ↦ simp (d, filter_map) (zip-keep_trusted is_trusted nodes)
]

-- Where the contract's call tells of each node whether it is trusted, the boot nodes are the nodes
-- that the contract's logs add, in their order, less those that are not trusted.
pub get_contract_boot_nodes-filter :
    (contract : BootNodesContract) (provider : Provider) (logs : List Log)
    (is_trusted : String → Bool)
    → contract.get_logs provider (boot_nodes_filter contract) ≡ ok logs
    → view_contract_call
        (contract.is_trusted_node (added_nodes contract logs))
        provider
        bootnodes_contract_address
      ≡ ok (map is_trusted (added_nodes contract logs))
    → get_contract_boot_nodes contract (ok provider)
      ≡ ok (filter is_trusted (added_nodes contract logs))
unfolding get_contract_boot_nodes
get_contract_boot_nodes-filter contract provider logs is_trusted found answers =
    simp (found, answers, zip-keep_trusted)
