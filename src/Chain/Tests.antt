-- ===== src/Chain/Tests.antt =====
-- Runs of src/chain.rs, and the theorems about claims at concrete chains.
use mintpool.Prelude.{List, [], ◌∷◌, ◌≡◌, refl, none, some, get_elem?}
use mintpool.Prelude.Decimal.{show}
use mintpool.Types.Data.{InclusionClaim}
use mintpool.Types.Premint.{simple, zora_v2}
use mintpool.Zora.Claims.{Filter, map_claim, unwrap_or_default, premint_factory_addr}
use mintpool.Chain.{inclusion_claim_correct}
use mintpool.Chain.Watcher.{Session, no_provider, streams, from_block, poll_for_new_mints}
use mintpool.Zora.Premint.{v2}
use mintpool.Chain.Laws.{Found, inclusion_claim_correct-true}
use mintpool.Fixtures.{formats, token, signed, decode_raw_log, get_rpc, claim_of, log}

abbrev claim : InclusionClaim
claim = claim_of "8453:66:3" "zora_premint_v2" 8453

panic_run : inclusion_claim_correct formats decode_raw_log get_rpc (simple (token 1)) claim ≡ none
unfolding inclusion_claim_correct
panic_run = refl

inclusion_claim_correct-true_example :
    (found : Found get_rpc claim) × (found.log.address ≡ premint_factory_addr)
    × (found.tx.transaction_hash ≡ 77)
    × (get_elem? found.tx.logs (unwrap_or_default found.log.log_index) ≡ some found.log)
unfolding inclusion_claim_correct show
inclusion_claim_correct-true_example =
    inclusion_claim_correct-true formats decode_raw_log get_rpc (zora_v2 signed) claim refl

-- Two connections with a log each, and one that fails between them.
abbrev sessions : List Session
sessions = streams (log ∷ []) ∷ no_provider ∷ streams (log ∷ []) ∷ []

abbrev filter : Filter
filter = record { address = premint_factory_addr; event_signature = "Preminted"; from_block = none }

-- The second subscription starts at the block of the first log.
reconnect_run :
    poll_for_new_mints (map_claim formats decode_raw_log v2) 8453 (some filter) sessions
    ≡ some (record {
      filter = from_block (some 9) filter;
      highest_block = some 9;
      sent = claim ∷ claim ∷ [];
      subscribed = filter ∷ from_block (some 9) filter ∷ [];
    })
unfolding poll_for_new_mints map_claim show
reconnect_run = refl
