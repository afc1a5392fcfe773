-- ===== src/Console.antt =====
-- src/stdin.rs
pub mod Laws
mod Tests
use mintpool.Prelude.{
  ℕ, zero, suc, String, Bool, true, false, Option, none, some, Result, ok, err, List, if◌then◌else◌,
  str_eq,
}
use mintpool.Prelude.Utf8.{starts_with}
use Prim.Native.String
use mintpool.Types.Data.{Report}
use mintpool.Types.Premint.{PremintTypes, Json}
use mintpool.Controller.State.{
  Channel, DbQuery, list_all, ControllerCommands, connect_to_peer, return_network_state,
  announce_self, broadcast, return_node_info, query, sync,
}
use mintpool.Controller.Interface.{Interface, send_command}

-- `&line[n..]`, for a line that begins with n characters of one byte.
abbrev pub skip : ℕ → String → String
skip zero s = s
skip (suc n) String.[] = ""
skip (suc n) (String.◌∷◌ c s) = skip n s

-- The command that a line asks for. `channel` is the one made for the reply, which is only printed.
module _ (json : Json) (channel : Channel) where
  abbrev pub broadcast_of : Result PremintTypes Report → Option ControllerCommands
  broadcast_of (ok p) = some (broadcast p channel)
  broadcast_of (err e) = none

  unfoldable pub command_of : String → Option ControllerCommands
  unfolding starts_with
  command_of line =
      if str_eq line ""
      then none
      else if starts_with "/connect " line
      then some (connect_to_peer (skip 9 line))
      else if starts_with "/sync" line
      then some sync
      else if starts_with "/ip4" line
      then some (connect_to_peer line)
      else if starts_with "/peers" line
      then some (return_network_state channel)
      else if starts_with "/node" line
      then some (return_node_info channel)
      else if starts_with "/announce" line
      then some announce_self
      else if starts_with "/list" line
      then some (query (list_all channel))
      else broadcast_of (json.from_json line)

  abbrev pub send_if_any : Option ControllerCommands → Interface → Interface
  send_if_any none i = i
  send_if_any (some c) i = (send_command c i).1

  -- Errors are logged.
  unfoldable pub process_stdin_line : String → Interface → Interface
  unfolding command_of send_command
  process_stdin_line line i = send_if_any (command_of line) i

  unfoldable pub watch_stdin : List String → Interface → Interface
  unfolding process_stdin_line
  watch_stdin List.[] i = i
  watch_stdin (List.◌∷◌ line rest) i = watch_stdin rest (process_stdin_line line i)
