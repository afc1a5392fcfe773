-- ===== src/Api/Routes.antt =====
-- src/api/routes.rs: the handlers of the HTTP API.
use mintpool.Prelude.{
  ℕ, String, Bool, true, not, List, map, Option, none, some, Result, ok, err, take, length, filter,
}
use mintpool.Types.Data.{Report, Formats}
use mintpool.Types.Premint.{PremintTypes, Json}
use mintpool.Storage.Table.{Db, Row}
use mintpool.Storage.Query
use mintpool.Storage.Query.{QueryOptions}
use mintpool.Rules.Evaluation.{Results}
use mintpool.Controller.State.{
  Channel, InsertError, not_evaluated, not_stored, not_valid, not_broadcast, broadcast,
  return_network_state,
}
use mintpool.Controller.Interface.{Interface, send_command}
use mintpool.Network.Addresses.{Multiaddr}
use mintpool.Network.State.{NatStatus, public, private, unknown, NetworkState}

pub data StatusCode : Type 0 where
  success : StatusCode
  bad_request : StatusCode
  unauthorized : StatusCode
  not_found : StatusCode
  internal_server_error : StatusCode

pub data ApiResponse : Type 0 where
  rules_error : Results → ApiResponse
  error : String → ApiResponse
  submitted : String → ApiResponse

-- How errors and addresses print, and `String::from_utf8` and `encode_hex` of a record's key.
pub record ApiTexts : Type 0 where
  pub insert_error_to_string : InsertError → String
  pub report_to_string : Report → String
  pub recv_error : String
  pub addr_to_string : Multiaddr → String
  pub from_utf8 : List ℕ → Option String
  pub encode_hex : List ℕ → String

-- What a handler gives: a body, or a status and a text.
abbrev pub Answer {ℓ} : Type ℓ → Type ℓ
Answer A = Result A (StatusCode × String)

abbrev pub or_status {ℓ} : {A : Type ℓ} → StatusCode × String → Result A Report → Answer A
or_status e (ok a) = ok a
or_status e (err _) = err e

module _ (j : Json) (f : Formats) where
  unfoldable pub list_all : QueryOptions → Db → Answer (List PremintTypes)
  unfolding Query.list_all_with_options
  list_all params db =
      or_status (internal_server_error, "Failed to list all premints")
        (Query.list_all_with_options j f params db)

  unfoldable pub get_one : QueryOptions → Db → Answer PremintTypes
  unfolding Query.get_one
  get_one params db =
      or_status (internal_server_error, "Failed to get one premint") (Query.get_one j f params db)

  unfoldable pub get_by_id_and_kind : String → String → Db → Answer PremintTypes
  unfolding Query.get_for_id_and_kind
  get_by_id_and_kind kind id db =
      or_status (not_found, "Failed to get premint")
        (Query.get_for_id_and_kind j id (record { name = kind }) db)

-- `e.downcast_ref::<Results>()`
abbrev pub downcast_results : InsertError → Option Results
downcast_results (not_valid rs) = some rs
downcast_results (not_evaluated e) = none
downcast_results (not_stored e) = none
downcast_results not_broadcast = none

module _ (t : ApiTexts) where
  unfoldable pub on_insert_error : InsertError → StatusCode × ApiResponse
  on_insert_error e = elim (downcast_results e) [
    | some rs ↦ (bad_request, rules_error rs)
    | none ↦ (bad_request, error (t.insert_error_to_string e))
  ]

  -- What is answered for what the oneshot channel brings.
  unfoldable pub on_inserted : Option (Result (Unit {0}) InsertError) → StatusCode × ApiResponse
  unfolding on_insert_error
  on_inserted (some (ok u)) = (success, submitted "Premint submitted")
  on_inserted (some (err e)) = on_insert_error e
  on_inserted none = (internal_server_error, error t.recv_error)

  abbrev pub on_sent :
      Option (Result (Unit {0}) InsertError)
      → Result (Unit {0}) Report × Interface
      → (StatusCode × ApiResponse) × Interface
  on_sent r (ok u, i) = (on_inserted r, i)
  on_sent r (err e, i) = ((internal_server_error, error (t.report_to_string e)), i)

  unfoldable pub submit_premint :
      PremintTypes
      → Channel
      → Option (Result (Unit {0}) InsertError)
      → Interface
      → (StatusCode × ApiResponse) × Interface
  unfolding send_command on_inserted
  submit_premint premint channel r i = on_sent r (send_command (broadcast premint channel) i)

  abbrev pub text_or_hex : List ℕ → String
  text_or_hex key = elim (t.from_utf8 key) [ some value ↦ value | none ↦ t.encode_hex key ]

  pub record NodeInfoResponse : Type 0 where
    pub local_peer_id : String
    pub num_peers : ℕ
    pub dht_peers : List (List String)
    pub gossipsub_peers : List String
    pub external_addresses : List String
    pub providing : List String
    pub listeners : List String
    pub nat_status : String

  abbrev pub nat_text : NatStatus → String
  nat_text private = "Private"
  nat_text unknown = "Unknown"
  nat_text (public addr) = "Public"

  unfoldable pub node_info_of : NetworkState → NodeInfoResponse
  node_info_of s = record {
    local_peer_id = s.local_peer_id;
    num_peers = s.num_peers;
    dht_peers = map (λ peer. map t.addr_to_string peer) s.dht_peers;
    gossipsub_peers = s.gossipsub_peers;
    external_addresses = map t.addr_to_string s.external_addresses;
    providing = map text_or_hex (take 100 s.providing);
    listeners = map t.addr_to_string s.listeners;
    nat_status = nat_text s.nat_status;
  }

  -- The commit and the version are the build's.
  pub record SummaryResponse : Type 0 where
    pub active_premint_count : ℕ
    pub total_premint_count : ℕ
    pub node_info : NodeInfoResponse

  -- `SELECT COUNT(*)`; a fault of the database is an error.
  abbrev pub unless : Option String → ℕ → Option ℕ
  unless none n = some n
  unless (some fault) n = none

  abbrev pub counted : (Row → Bool) → Db → Option ℕ
  counted p db = unless db.fault (length (filter p db.rows))

  abbrev pub summary_of : Option ℕ → Option ℕ → NetworkState → Result SummaryResponse StatusCode
  summary_of none active s = err internal_server_error
  summary_of (some total) none s = err internal_server_error
  summary_of (some total) (some active) s = ok (record {
    active_premint_count = active;
    total_premint_count = total;
    node_info = node_info_of s;
  })

  abbrev pub on_state :
      Db
      → Option NetworkState
      → Result (Unit {0}) Report × Interface
      → Result SummaryResponse StatusCode × Interface
  on_state db r (err e, i) = (err internal_server_error, i)
  on_state db none (ok u, i) = (err internal_server_error, i)
  on_state db (some s) (ok u, i) =
      (summary_of (counted (λ r. true) db) (counted (λ r. not r.seen_on_chain) db) s, i)

  unfoldable pub summary :
      Channel → Option NetworkState → Db → Interface → Result SummaryResponse StatusCode × Interface
  unfolding send_command node_info_of
  summary channel r db i = on_state db r (send_command (return_network_state channel) i)
