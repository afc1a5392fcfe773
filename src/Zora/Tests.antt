-- ===== src/Zora/Tests.antt =====
-- Runs of src/premints/zora_premint/types.rs, and the theorems about claims at concrete logs.
use mintpool.Prelude.{◌≡◌, ◌↔◌, refl, true, none}
use mintpool.Prelude.Decimal.{show}
use mintpool.Zora.Premint.{erc20v1}
use mintpool.Zora.Claims.{
  PremintedV2, premint_factory_addr, unwrap_or_default, map_claim, verify_claim, check_filter,
}
use mintpool.Zora.Claims.Laws.{verify_claim-map_claim}
use mintpool.Fixtures.{formats, signed, erc20, log, receipt, decode_raw_log, claim_of}

abbrev event : PremintedV2
event = record { contract_address = 66; uid = 3 }

verify_run :
    verify_claim formats decode_raw_log signed 8453 receipt log
      (claim_of "8453:66:3" "zora_premint_v2" 8453)
    ≡ true
unfolding verify_claim show
verify_run = refl

-- The chain 999999999, which the rules accept, has no filter.
filter_run : check_filter "Preminted" 999999999 ≡ none
unfolding check_filter
filter_run = refl

-- The claim of an ERC20V1 premint does not verify: its kind is another.
verify_claim-map_claim_example :
    (verify_claim formats decode_raw_log erc20 1 receipt log
        (claim_of "1:66:3" "zora_premint_erc20v1" 1)
      ≡ true)
    ↔ ((erc20v1.kind ≡ "zora_premint_v2")
        × (log.address ≡ premint_factory_addr)
        × (unwrap_or_default log.transaction_hash ≡ 77)
        × (erc20.collection_address ≡ 66)
        × (erc20.premint.uid ≡ 3))
unfolding map_claim show
verify_claim-map_claim_example =
    verify_claim-map_claim formats decode_raw_log erc20v1 erc20 1 receipt log
      (claim_of "1:66:3" "zora_premint_erc20v1" 1) event refl refl
