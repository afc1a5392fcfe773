-- ===== src/Api/Effects.antt =====
-- src/api/mod.rs: what the handlers that anybody may call ask of the controller.
use mintpool.Prelude.{
  ◌≡◌, refl, sym, subst, ◌⊎◌, inl, inr, ◌∷◌, ◌++◌, [], Option, none, some, Result, ok, err,
  Bool-cases,
}
use mintpool.Types.Data.{Report}
use mintpool.Storage.Table.{Db}
use mintpool.Controller.State.{InsertError, ControllerCommands, broadcast, return_network_state}
use mintpool.Controller.Interface.{Interface, send_command}
use mintpool.Network.State.{NetworkState}
use mintpool.Api.Routes
use mintpool.Api.Routes.{ApiTexts, on_sent, on_state}
use mintpool.Api.Router.{
  Handler, health, list_all, get_one, get_by_id_and_kind, submit_premint, summary, add_peer, sync,
  Request, Replies, Server, Served, extracted, run_handler,
}

-- What anybody may ask of the controller: to insert and broadcast a premint, and the state of the
-- network.
abbrev pub IsPublic : ControllerCommands → Type 0
IsPublic (broadcast premint channel) = Unit {0}
IsPublic (return_network_state channel) = Unit {0}
IsPublic _ = ⊥

-- The controller is asked nothing, or one thing that anybody may ask.
abbrev pub IsPublicEffect : Interface → Interface → Type 0
IsPublicEffect i i' =
    (i' ≡ i) ⊎ ((c : ControllerCommands) × IsPublic c × (i'.commands ≡ i.commands ++ c ∷ []))

abbrev pub IsPublicHandler : Handler → Type 0
IsPublicHandler add_peer = ⊥
IsPublicHandler sync = ⊥
IsPublicHandler _ = Unit {0}

send_command-IsPublicEffect :
    (c : ControllerCommands) (i : Interface) → IsPublic c → IsPublicEffect i (send_command c i).1
unfolding send_command
send_command-IsPublicEffect c i public = elim (Bool-cases i.is_open) [
  | inl is_open ↦ rw is_open (inr (c, public, refl))
  | inr closed ↦ rw closed (inl refl)
]

on_sent-interface :
    (t : ApiTexts) (r : Option (Result (Unit {0}) InsertError))
    (sent : Result (Unit {0}) Report × Interface)
    → (on_sent t r sent).1 ≡ sent.1
on_sent-interface t r (ok u, i) = refl
on_sent-interface t r (err e, i) = refl

on_state-interface :
    (t : ApiTexts) (db : Db) (r : Option NetworkState) (sent : Result (Unit {0}) Report × Interface)
    → (on_state t db r sent).1 ≡ sent.1
on_state-interface t db r (err e, i) = refl
on_state-interface t db none (ok u, i) = refl
on_state-interface t db (some s) (ok u, i) = refl

extracted-IsPublicEffect :
    {A : Type 0} (a : Option A) (f : A → Served) (i : Interface)
    → ((x : A) → IsPublicEffect i (f x).1)
    → IsPublicEffect i (extracted a f i).1
extracted-IsPublicEffect none f i h = inl refl
extracted-IsPublicEffect (some x) f i h = h x

module _ (server : Server) (db : Db) (request : Request) (replies : Replies) where
  pub run_handler-IsPublicEffect :
      (h : Handler) (i : Interface)
      → IsPublicHandler h
      → IsPublicEffect i (run_handler server db request replies h i).1
  unfolding run_handler Routes.submit_premint Routes.summary
  run_handler-IsPublicEffect health i public = inl refl
  run_handler-IsPublicEffect list_all i public =
      extracted-IsPublicEffect request.query _ i (λ q. inl refl)
  run_handler-IsPublicEffect get_one i public =
      extracted-IsPublicEffect request.query _ i (λ q. inl refl)
  run_handler-IsPublicEffect get_by_id_and_kind i public =
      extracted-IsPublicEffect request.kind_and_id _ i (λ p. inl refl)
  run_handler-IsPublicEffect submit_premint i public =
      extracted-IsPublicEffect request.premint _ i (λ p.
        subst (IsPublicEffect i) (sym (on_sent-interface server.texts replies.inserted _))
          (send_command-IsPublicEffect (broadcast p replies.channel) i tt))
  run_handler-IsPublicEffect add_peer i public = absurd public
  run_handler-IsPublicEffect sync i public = absurd public
  run_handler-IsPublicEffect summary i public =
      subst (IsPublicEffect i) (sym (on_state-interface server.texts db replies.network_state _))
        (send_command-IsPublicEffect (return_network_state replies.channel) i tt)
