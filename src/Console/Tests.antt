-- ===== src/Console/Tests.antt =====
-- Runs of src/stdin.rs, and the theorems about it at concrete lines.
use mintpool.Prelude.{◌≡◌, refl, true, [], ◌∷◌}
use mintpool.Controller.State.{sync, broadcast}
use mintpool.Controller.Interface.{Interface}
use mintpool.Controller.Fixtures.{caller, first}
use mintpool.Fixtures
use mintpool.Fixtures.{json-RoundTrips}
use mintpool.Console.{watch_stdin}

abbrev controller : Interface
controller = record { commands = []; is_open = true }

watch_stdin_run :
    watch_stdin Fixtures.json caller ("" ∷ "/sync now" ∷ "/connect" ∷ "one" ∷ []) controller
    ≡ record { commands = sync ∷ broadcast first caller ∷ []; is_open = true }
unfolding watch_stdin
watch_stdin_run = refl
