-- ===== src/Startup.antt =====
-- src/run.rs and src/main.rs
pub mod Laws
pub mod Services
pub mod Dialling
pub mod Answers
pub mod Process
pub mod Starts
mod Tests
use mintpool.Prelude.{
  ℕ, ◌+◌, ◌-◌, zero, suc, String, Bool, true, false, List, [], ◌∷◌, ◌++◌, Option, none, some,
  Result, ok, err, take, length, ltb, if◌then◌else◌,
}
use mintpool.Config.{
  Config, BootNodes, chain, custom, no_nodes, ChainInclusionMode, check, verify, trust,
  supported_chains,
}
use mintpool.Types.Data.{Report}
use mintpool.Controller.State.{ControllerCommands, connect_to_peer, announce_self}
use mintpool.Controller.Interface.{Interface, send_command}
use mintpool.ChainList.{Chain, get_rpc_url}

abbrev pub replicate {ℓ} : {A : Type ℓ} → ℕ → A → List A
replicate zero a = []
replicate (suc n) a = a ∷ replicate n a

abbrev pub drop {ℓ} : {A : Type ℓ} → ℕ → List A → List A
drop zero xs = xs
drop (suc n) [] = []
drop (suc n) (x ∷ xs) = drop n xs

-- `buffer[..source.len()].copy_from_slice(source)`; the slice is in the buffer.
abbrev pub copy_into : List ℕ → List ℕ → List ℕ
copy_into source buffer = source ++ drop (length source) buffer

-- The 32 bytes of the key.
unfoldable pub key_bytes : List ℕ → List ℕ
key_bytes secret_bytes =
    if ltb (length secret_bytes) 32
    then copy_into secret_bytes (replicate 32 0)
    else if ltb 32 (length secret_bytes)
    then copy_into (take 32 secret_bytes) (replicate 32 0)
    else copy_into secret_bytes (replicate 32 0)

abbrev pub keypair_of {ℓ} :
    {K : Type ℓ} → (List ℕ → Result K Report) → Result (List ℕ) Report → Result K Report
keypair_of from_bytes (err e) = err e
keypair_of from_bytes (ok secret_bytes) = from_bytes (key_bytes secret_bytes)

-- `decode` is `hex::decode` and `from_bytes` is `Keypair::ed25519_from_bytes`.
unfoldable pub make_keypair {ℓ} :
    {K : Type ℓ}
    → (String → Result (List ℕ) Report)
    → (List ℕ → Result K Report)
    → Config
    → Result K Report
unfolding key_bytes
make_keypair decode from_bytes config = keypair_of from_bytes (decode config.secret)

-- Errors are logged.
unfoldable pub connect_each : List String → Interface → Interface
unfolding send_command
connect_each [] i = i
connect_each (node ∷ rest) i = connect_each rest (send_command (connect_to_peer node) i).1

unfoldable pub connect_to_boot_nodes : List String → Interface → Interface
unfolding connect_each
connect_to_boot_nodes boot_nodes i = (send_command announce_self (connect_each boot_nodes i)).1

-- `contract_nodes` is what `get_contract_boot_nodes` gives.
unfoldable pub connect_initially : BootNodes → Result (List String) Report → Interface → Interface
unfolding connect_to_boot_nodes
connect_initially chain (ok nodes) i = connect_to_boot_nodes nodes i
connect_initially chain (err e) i = i
connect_initially (custom nodes) contract_nodes i = connect_to_boot_nodes nodes i
connect_initially no_nodes contract_nodes i = i

-- What one poll of `poll_for_new_mints` comes back with.
pub data PollResult : Type 0 where
  no_filter : PollResult
  failed : Report → PollResult

-- The task of a chain, over what its polls come back with: how many polls it makes, and whether it
-- is done.
unfoldable pub watch : List PollResult → ℕ × Bool
watch [] = (0, false)
watch (no_filter ∷ rest) = (1, true)
watch (failed e ∷ rest) = let later = watch rest in (suc later.0, later.1)

abbrev pub add_watcher :
    ℕ → Result String Report → Option (List (ℕ × String)) → Option (List (ℕ × String))
add_watcher chain_id (err e) others = none
add_watcher chain_id (ok url) none = none
add_watcher chain_id (ok url) (some ws) = some ((chain_id, url) ∷ ws)

-- The chains that are watched, each with its URL; none is a panic.
abbrev pub watchers : (ℕ → Result String Report) → List ℕ → Option (List (ℕ × String))
watchers get_url [] = some []
watchers get_url (chain_id ∷ rest) = add_watcher chain_id (get_url chain_id) (watchers get_url rest)

abbrev pub watchers_of : (ℕ → Result String Report) → Option (List ℕ) → Option (List (ℕ × String))
watchers_of get_url none = none
watchers_of get_url (some chains) = watchers get_url chains

abbrev pub watched_in : ChainInclusionMode → Option (List (ℕ × String)) → Option (List (ℕ × String))
watched_in check started = started
watched_in verify started = some []
watched_in trust started = some []

-- `parse` is `str::parse::<u64>` and `env_var` is `std::env::var`.
unfoldable pub start_watch_chain :
    (String → Option ℕ)
    → (String → Option String)
    → List Chain
    → Config
    → Option (List (ℕ × String))
unfolding supported_chains get_rpc_url
start_watch_chain parse env_var chains config =
    watched_in config.chain_inclusion_mode
      (watchers_of (get_rpc_url env_var chains) (supported_chains parse config))
