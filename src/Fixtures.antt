-- ===== src/Fixtures.antt =====
-- Stand-ins for the libraries, and premints, for the runs of all parts.
use mintpool.Prelude.{
  ℕ, ◌≡◌, refl, sym, ap, String, Bool, true, false, ◌&&◌, List, [], ◌∷◌, none, some, Result, ok,
  err, ◌==◌, str_eq, eq_iff, if◌then◌else◌, inl, inr, Bool-cases, arith,
}
use mintpool.Prelude.Decimal.{show, show_inj}
use mintpool.Prelude.Text.{show-HasNoColon}
use mintpool.Types.Data.{Report, message, Formats, FormatsLaws, InclusionClaim}
use mintpool.Zora.Claims.{Log, TransactionReceipt, PremintedV2, premint_factory_addr}
use mintpool.Types.Premint.{
  SimplePremint, PremintTypes, simple, zora_v2, zora_erc20_v1, Json, RoundTrips,
}
use mintpool.Zora.Premint.{ZoraPremint, TokenCreationConfigV2, TokenCreationConfigErc20V1}
use mintpool.Storage.Table.{Db}
use mintpool.Rules.Context.{Provider}
use mintpool.Rules.Signed.{Contract, Crypto}

abbrev pub formats : Formats
formats = record {
  address_debug = show;
  address_to_string = show;
  to_checksum = show;
  time_to_string = show;
}

pub formats_laws : FormatsLaws formats
formats_laws = record {
  address_debug_inj = show_inj;
  address_debug_no_colon = show-HasNoColon;
  to_checksum_inj = show_inj;
  display_is_checksum = λ a. refl;
}

-- A token and its versions.
abbrev pub token : ℕ → SimplePremint
token v = record { version = v; chain_id = 7777777; sender = 5; token_id = 9; media = "ipfs://a" }

abbrev pub is_token : SimplePremint → Bool
is_token p =
    (p.chain_id == 7777777) && ((p.sender == 5) && ((p.token_id == 9) && str_eq p.media "ipfs://a"))

-- A `serde_json` that knows two versions of the token.
abbrev pub to_json : PremintTypes → Result String Report
to_json (simple p) =
    if is_token p && (p.version == 1)
    then ok "one"
    else if is_token p && (p.version == 2)
    then ok "two"
    else err (message "unknown")
to_json (zora_v2 p) = err (message "unknown")
to_json (zora_erc20_v1 p) = err (message "unknown")

abbrev pub from_json : String → Result PremintTypes Report
from_json s =
    if str_eq s "one"
    then ok (simple (token 1))
    else if str_eq s "two"
    then ok (simple (token 2))
    else err (message "unknown")

abbrev pub json : Json
json = record { to_json = to_json; from_json = from_json }

is_token-eq :
    (p : SimplePremint) (v : ℕ)
    → is_token p && (p.version == v) ≡ true
    → simple p ≡ simple (token v)
is_token-eq p v h =
    let version : p.version ≡ v = ground (arith, h) in
    let chain_id : p.chain_id ≡ 7777777 = ground (arith, h) in
    let sender : p.sender ≡ 5 = ground (arith, h) in
    let token_id : p.token_id ≡ 9 = ground (arith, h) in
    let media : p.media ≡ "ipfs://a" = ground (arith, eq_iff p.media "ipfs://a", h) in
    rw (version, chain_id, sender, token_id, media)

to_json-one :
    (p : SimplePremint) → is_token p && (p.version == 1) ≡ true → to_json (simple p) ≡ ok "one"
to_json-one p h = rw h

to_json-two :
    (p : SimplePremint)
    → is_token p && (p.version == 1) ≡ false
    → is_token p && (p.version == 2) ≡ true
    → to_json (simple p) ≡ ok "two"
to_json-two p h k = rw (h, k)

to_json-unknown :
    (p : SimplePremint)
    → is_token p && (p.version == 1) ≡ false
    → is_token p && (p.version == 2) ≡ false
    → to_json (simple p) ≡ err (message "unknown")
to_json-unknown p h k = rw (h, k)

pub json-RoundTrips : RoundTrips json
json-RoundTrips (simple p) s h = elim (Bool-cases (is_token p && (p.version == 1))) [
  | inl one ↦
      let same : s ≡ "one" = cc (to_json-one p one, h) in
      rw same (ap ok (sym (is_token-eq p 1 one)))
  | inr other ↦ elim (Bool-cases (is_token p && (p.version == 2))) [
    | inl two ↦
        let same : s ≡ "two" = cc (to_json-two p other two, h) in
        rw same (ap ok (sym (is_token-eq p 2 two)))
    | inr unknown ↦ cc (to_json-unknown p other unknown, h)
  ]
]
json-RoundTrips (zora_v2 p) s h = cc h
json-RoundTrips (zora_erc20_v1 p) s h = cc h

abbrev pub empty_db : Db
empty_db = record { rows = []; now = "2024-04-01 12:00:00"; fault = none }

-- A V2 premint on Base, signed by 5.
abbrev pub signed : ZoraPremint TokenCreationConfigV2
signed = record {
  collection_address = 66;
  chain_id = 8453;
  collection = record { contract_admin = 5; contract_uri = "ipfs://c"; contract_name = "name" };
  premint = record {
    token_config = record {
      token_uri = "ipfs://t";
      max_supply = 100;
      max_tokens_per_address = 10;
      price_per_token = 0;
      mint_start = 0;
      mint_duration = 0;
      royalty_bps = 0;
      payout_recipient = 5;
      fixed_price_minter = 0;
      create_referral = 0;
    };
    uid = 3;
    version = 1;
    deleted = false;
  };
  signature = "0x01";
}

-- The same with a signature that does not parse.
abbrev pub unparsed : ZoraPremint TokenCreationConfigV2
unparsed = record {
  collection_address = signed.collection_address;
  chain_id = signed.chain_id;
  collection = signed.collection;
  premint = signed.premint;
  signature = "junk";
}

-- An ERC20 premint on a chain that nobody supports, without a signature.
abbrev pub erc20 : ZoraPremint TokenCreationConfigErc20V1
erc20 = record {
  collection_address = 66;
  chain_id = 1;
  collection = signed.collection;
  premint = record {
    token_config = record {
      token_uri = "ipfs://e";
      max_supply = 100;
      max_tokens_per_address = 10;
      price_per_token = 0;
      mint_start = 0;
      mint_duration = 0;
      royalty_bps = 0;
      fixed_price_minter = 0;
      royalty_mint_schedule = 0;
      royalty_recipient = 5;
    };
    uid = 4;
    version = 1;
    deleted = false;
  };
  signature = "";
}

-- Signatures are "0x01", the signature 1 by 5.
abbrev pub crypto : Crypto TokenCreationConfigV2
crypto = record {
  signature_from_str = λ s. if str_eq s "0x01" then ok 1 else err (message "bad signature");
  eip712_signing_hash = λ premint domain. premint.uid;
  recover_address_from_prehash = λ signature hash. ok 5;
}

-- A factory whose calls all decode to what is wanted.
abbrev pub contract : Contract
contract = record {
  is_authorized_to_create_premint =
      λ a b c. record { abi_encode = 1 ∷ []; abi_decode_returns = λ response. ok true };
  premint_status =
      λ a uid. record { abi_encode = 2 ∷ []; abi_decode_returns = λ response. ok (false, 0) };
  supported_premint_signature_versions =
      λ a. record { abi_encode = 3 ∷ []; abi_decode_returns = λ response. ok ("1" ∷ "2" ∷ []) };
}

-- A log of the factory in the transaction 77, and its receipt.
abbrev pub log : Log
log = record {
  address = premint_factory_addr;
  topics = [];
  log_data = [];
  transaction_hash = some 77;
  log_index = some 0;
  block_number = some 9;
}

abbrev pub receipt : TransactionReceipt
receipt = record { transaction_hash = 77; logs = log ∷ [] }

abbrev pub decode_raw_log : List ℕ → List ℕ → Result PremintedV2 Report
decode_raw_log topics bytes = ok (record { contract_address = 66; uid = 3 })

abbrev pub provider : Provider
provider = record {
  call = λ address input. ok [];
  get_transaction_receipt = λ hash. if hash == 77 then ok (some receipt) else ok none;
}

abbrev pub get_rpc : ℕ → Result Provider Report
get_rpc chain_id = ok provider

abbrev pub claim_of : String → String → ℕ → InclusionClaim
claim_of id kind chain_id = record {
  premint_id = id;
  chain_id = chain_id;
  tx_hash = 77;
  log_index = 0;
  kind = kind;
}
