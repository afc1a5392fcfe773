-- ===== src/Chain/Watcher.antt =====
-- src/chain.rs: `MintChecker::poll_for_new_mints`, over what its connections bring.
use mintpool.Prelude.{ℕ, List, [], ◌∷◌, ◌++◌, Option, none, some, Result, to_option, filter_map}
use mintpool.Types.Data.{Report, InclusionClaim}
use mintpool.Zora.Claims.{Log, Filter}

-- A turn of the loop: no provider, no subscription, or a stream of logs until it ends.
pub data Session : Type 0 where
  no_provider : Session
  no_subscription : Session
  streams : List Log → Session

-- The variables of the loop, the claims sent to the controller and the filters subscribed with,
-- oldest first.
pub record Watch : Type 0 where
  pub filter : Filter
  pub highest_block : Option ℕ
  pub sent : List InclusionClaim
  pub subscribed : List Filter

abbrev pub from_block : Option ℕ → Filter → Filter
from_block none f = f
from_block (some b) f = record {
  address = f.address;
  event_signature = f.event_signature;
  from_block = some b;
}

abbrev pub or_last : Option ℕ → Option ℕ → Option ℕ
or_last last none = last
or_last last (some b) = some b

abbrev pub sent_after : List InclusionClaim → Option InclusionClaim → List InclusionClaim
sent_after sent none = sent
sent_after sent (some c) = sent ++ c ∷ []

module _ (map_claim : ℕ → Log → Result InclusionClaim Report) (chain_id : ℕ) where
  unfoldable pub on_log : Log → Watch → Watch
  on_log log w = record {
    filter = w.filter;
    highest_block = or_last w.highest_block log.block_number;
    sent = sent_after w.sent (to_option (map_claim chain_id log));
    subscribed = w.subscribed;
  }

  unfoldable pub on_logs : List Log → Watch → Watch
  unfolding on_log
  on_logs [] w = w
  on_logs (log ∷ logs) w = on_logs logs (on_log log w)

  unfoldable pub subscribe : Watch → Watch
  subscribe w = record {
    filter = from_block w.highest_block w.filter;
    highest_block = w.highest_block;
    sent = w.sent;
    subscribed = w.subscribed ++ from_block w.highest_block w.filter ∷ [];
  }

  unfoldable pub on_session : Session → Watch → Watch
  unfolding on_logs subscribe
  on_session no_provider w = w
  on_session no_subscription w = subscribe w
  on_session (streams logs) w = on_logs logs (subscribe w)

  unfoldable pub on_sessions : List Session → Watch → Watch
  unfolding on_session
  on_sessions [] w = w
  on_sessions (s ∷ rest) w = on_sessions rest (on_session s w)

  -- None is `MintCheckerResult::NoFilter`; the first argument is `T::check_filter(chain_id)`. The
  -- loop itself does not end.
  unfoldable pub poll_for_new_mints : Option Filter → List Session → Option Watch
  unfolding on_sessions
  poll_for_new_mints none sessions = none
  poll_for_new_mints (some f) sessions = some (
      on_sessions sessions
        (record { filter = f; highest_block = none; sent = []; subscribed = [] }))

  -- What the sessions bring, and the claims of it.
  abbrev pub logs_of : List Session → List Log
  logs_of [] = []
  logs_of (no_provider ∷ rest) = logs_of rest
  logs_of (no_subscription ∷ rest) = logs_of rest
  logs_of (streams logs ∷ rest) = logs ++ logs_of rest

  abbrev pub claims_of : List Log → List InclusionClaim
  claims_of logs = filter_map (λ log. to_option (map_claim chain_id log)) logs
