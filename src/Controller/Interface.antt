-- ===== src/Controller/Interface.antt =====
-- src/controller.rs: `ControllerInterface`, by which the rest of the program asks the controller.
use mintpool.Prelude.{
  ℕ, ◌≡◌, Bool, true, List, [], ◌∷◌, ◌++◌, Option, none, some, Result, ok, err, ◌==◌, if◌then◌else◌,
}
use mintpool.Types.Data.{Report, message}
use mintpool.Types.Premint.{PremintTypes}
use mintpool.Controller.State.{
  Channel, list_all, ControllerCommands, query, return_node_info, return_network_state, Reply,
}

-- The commands sent, oldest first, and whether the controller still receives.
pub record Interface : Type 0 where
  pub commands : List ControllerCommands
  pub is_open : Bool

abbrev pub controller_closed : Report
controller_closed = message "channel closed"

abbrev pub dropped : Report
dropped = message "channel closed"

unfoldable pub send_command : ControllerCommands → Interface → Result (Unit {0}) Report × Interface
send_command c i =
    if i.is_open
    then (ok tt, record { commands = i.commands ++ c ∷ []; is_open = true })
    else (err controller_closed, i)

pub send_command_open :
    (c : ControllerCommands) (i : Interface)
    → i.is_open ≡ true
    → send_command c i ≡ (ok tt, record { commands = i.commands ++ c ∷ []; is_open = true })
unfolding send_command
send_command_open c i is_open = rw is_open

-- What a oneshot channel of some name brings: the first reply on it, or nothing when its sending
-- half is dropped.
abbrev pub received : ℕ → List (ℕ × Reply) → Option Reply
received name [] = none
received name ((n, r) ∷ rest) = if n == name then some r else received name rest

-- `recv.await?` of some value, when the command was sent.
abbrev pub after_send {ℓ} :
    {A : Type ℓ} → Result (Unit {0}) Report × Interface → Option A → Result A Report × Interface
after_send (err e, i) r = (err e, i)
after_send (ok u, i) none = (err dropped, i)
after_send (ok u, i) (some a) = (ok a, i)

-- `recv.await??`
abbrev pub flatten {ℓ} :
    {A : Type ℓ} → Result (Result A Report) Report × Interface → Result A Report × Interface
flatten (err e, i) = (err e, i)
flatten (ok r, i) = (r, i)

unfoldable pub get_all_premints :
    Channel
    → Option (Result (List PremintTypes) Report)
    → Interface
    → Result (List PremintTypes) Report × Interface
unfolding send_command
get_all_premints channel r i = flatten (after_send (send_command (query (list_all channel)) i) r)

-- What the swarm sends on the channels of these is the caller's type.
unfoldable pub get_node_info {ℓ} :
    {Info : Type ℓ} → Channel → Option Info → Interface → Result Info Report × Interface
unfolding send_command
get_node_info channel r i = after_send (send_command (return_node_info channel) i) r

unfoldable pub get_network_state {ℓ} :
    {Info : Type ℓ} → Channel → Option Info → Interface → Result Info Report × Interface
unfolding send_command
get_network_state channel r i = after_send (send_command (return_network_state channel) i) r
