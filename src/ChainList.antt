-- ===== src/ChainList.antt =====
-- src/chain_list.rs
pub mod Variables
pub mod Laws
mod Tests
use mintpool.Prelude.{
  ℕ, String, Bool, true, false, List, [], ◌∷◌, ◌++◌, Option, none, some, Result, ok, err, find,
  ◌==◌, str_append, if◌then◌else◌,
}
use mintpool.Prelude.Decimal.{show}
use mintpool.Prelude.Int.{ℤ}
use mintpool.Prelude.Utf8.{starts_with}
use mintpool.Types.Data.{Report, message}
use mintpool.ChainList.Variables.{has_variable}

pub record Chain : Type 0 where
  pub name : String
  pub chain : String
  pub rpc : List String
  pub chain_id : ℕ
  pub network_id : ℤ

unfoldable pub get_chain_by_id : List Chain → ℕ → Option Chain
get_chain_by_id chains chain_id = find (λ c. c.chain_id == chain_id) chains

abbrev pub no_suitable_url : Report
no_suitable_url = message "No suitable RPC URL found for chain"

-- The loop over a chain's URLs.
unfoldable pub first_ws : List String → Result String Report
unfolding starts_with
first_ws [] = err no_suitable_url
first_ws (rpc ∷ rest) = let later = first_ws rest in if starts_with "ws" rpc then ok rpc else later

abbrev pub env_name : ℕ → String
env_name chain_id = str_append "CHAIN_" (str_append (show chain_id) "_RPC_WSS")

unfoldable pub url_of_chain : ℕ → Option Chain → Result String Report
unfolding first_ws
url_of_chain chain_id none =
    err (message (str_append "Chain id " (str_append (show chain_id) " not found")))
url_of_chain chain_id (some chain) = first_ws chain.rpc

abbrev pub unless_set : Option String → Result String Report → Result String Report
unless_set (some url) found = ok url
unless_set none found = found

-- `env_var` is `std::env::var`.
unfoldable pub get_rpc_url : (String → Option String) → List Chain → ℕ → Result String Report
unfolding url_of_chain get_chain_by_id
get_rpc_url env_var chains chain_id =
    unless_set (env_var (env_name chain_id))
      (url_of_chain chain_id (get_chain_by_id chains chain_id))

-- The connections made and those put in the cache, oldest first.
pub record Connections {ℓ} (P : Type ℓ) : Type ℓ where
  pub made : List String
  pub cached : List (String × P)

-- What a connection gives is put in the cache. `cache` is what `Cache::get` gives at the time, and
-- `on_ws` connects.
module _ {ℓ} {P : Type ℓ} (cache : String → Option P) (on_ws : String → Result P Report) where
  unfoldable pub on_connected :
      String → Result P Report → Connections P → Result P Report × Connections P
  on_connected url (err e) c = (err e, record { made = c.made ++ url ∷ []; cached = c.cached })
  on_connected url (ok p) c =
      (ok p, record { made = c.made ++ url ∷ []; cached = c.cached ++ (url, p) ∷ [] })

  unfoldable pub on_cached : String → Option P → Connections P → Result P Report × Connections P
  unfolding on_connected
  on_cached url (some p) c = (ok p, c)
  on_cached url none c = on_connected url (on_ws url) c

  unfoldable pub connect : String → Connections P → Result P Report × Connections P
  unfolding has_variable on_cached
  connect url c =
      if has_variable url
      then (err (message "URL contains variables"), c)
      else on_cached url (cache url) c

  abbrev pub connect_to : Result String Report → Connections P → Result P Report × Connections P
  connect_to (err e) c = (err e, c)
  connect_to (ok url) c = connect url c

  unfoldable pub get_rpc :
      (String → Option String) → List Chain → ℕ → Connections P → Result P Report × Connections P
  unfolding get_rpc_url connect
  get_rpc env_var chains chain_id c = connect_to (get_rpc_url env_var chains chain_id) c
