-- ===== src/Types/Tests.antt =====
-- Runs of src/types.rs, and the theorem about ids at concrete premints.
use mintpool.Prelude.{◌≡◌, ◌↔◌, refl}
use mintpool.Prelude.Decimal.{show}
use mintpool.Types.Premint.{simple, zora_v2, metadata}
use mintpool.Types.Premint.Identity.{id-eq_iff, chain, issuer, token}
use mintpool.Fixtures
use mintpool.Fixtures.{formats, formats_laws, signed}

id_run : (metadata formats (zora_v2 signed)).id ≡ "8453:66:3"
unfolding metadata show
id_run = refl

id-eq_iff_example :
    ((metadata formats (zora_v2 signed)).id ≡ (metadata formats (simple (Fixtures.token 1))).id) ↔ (
      (chain (zora_v2 signed) ≡ 7777777)
      × (issuer (zora_v2 signed) ≡ 5)
      × (token (zora_v2 signed) ≡ 9))
id-eq_iff_example = id-eq_iff formats formats_laws (zora_v2 signed) (simple (Fixtures.token 1))
