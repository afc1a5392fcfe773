-- ===== src/Api/Admin.antt =====
-- src/api/admin.rs: the handlers behind the secret, and the check of the secret.
use mintpool.Prelude.{String, Option, none, some, Result, ok, err, not, if◌then◌else◌, str_eq}
use mintpool.Types.Data.{Report}
use mintpool.Controller.State.{connect_to_peer, sync}
use mintpool.Controller.Interface.{Interface, send_command}
use mintpool.Api.Routes.{
  StatusCode, success, unauthorized, internal_server_error, ApiResponse, error, submitted, ApiTexts,
}

-- The value of a header, as `to_str` reads it: none when it is no visible ASCII.
pub record Header : Type 0 where
  pub to_str : Option String

abbrev pub unwrap_or_default : Option String → String
unwrap_or_default none = ""
unwrap_or_default (some s) = s

abbrev pub check_secret {ℓ} :
    {A : Type ℓ} → String → Option Header → A → Result A (StatusCode × String)
check_secret secret none next =
    err (unauthorized, "Unauthorized. Set Header Authorization: <secret>")
check_secret secret (some auth) next =
    if not (str_eq (unwrap_or_default auth.to_str) secret)
    then err (unauthorized, "Unauthorized. Invalid secret")
    else ok next

-- What `next.run` gives, or the answer to who is not let through.
unfoldable pub auth_middleware {ℓ} :
    {A : Type ℓ} → Option String → Option Header → A → Result A (StatusCode × String)
auth_middleware none header next = err (unauthorized, "Unauthorized")
auth_middleware (some secret) header next = check_secret secret header next

module _ (t : ApiTexts) where
  abbrev pub on_added :
      Result (Unit {0}) Report × Interface → (StatusCode × ApiResponse) × Interface
  on_added (ok u, i) = ((success, submitted "Peer added"), i)
  on_added (err e, i) = ((internal_server_error, error (t.report_to_string e)), i)

  unfoldable pub add_peer : String → Interface → (StatusCode × ApiResponse) × Interface
  unfolding send_command
  add_peer peer i = on_added (send_command (connect_to_peer peer) i)

  abbrev pub on_synced : Result (Unit {0}) Report × Interface → StatusCode × Interface
  on_synced (ok u, i) = (success, i)
  on_synced (err e, i) = (internal_server_error, i)

  unfoldable pub sync_peers : Interface → StatusCode × Interface
  unfolding send_command
  sync_peers i = on_synced (send_command sync i)
