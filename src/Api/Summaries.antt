-- ===== src/Api/Summaries.antt =====
-- src/api/routes.rs: the counts of `summary`, and what it lists.
use mintpool.Prelude.{◌≡◌, some, to_option}
use mintpool.Types.Premint.{PremintTypes, Json}
use mintpool.Storage.Table.{Row}
use mintpool.Controller.Interface.{Interface}
use mintpool.Api.Routes
use mintpool.Api.Routes.{NodeInfoResponse}

-- The row's JSON is that of a premint.
abbrev pub Parses : Json → Row → Type 0
Parses j r = (p : PremintTypes) × (to_option (j.from_json r.json) ≡ some p)
