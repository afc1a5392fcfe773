-- ===== src/Network/MessageIds.antt =====
-- src/p2p.rs: `gossipsub_message_id`, by which gossipsub tells a new message from a duplicate.
use mintpool.Prelude.{◌≡◌, ◌≢◌, String, Result, ok, err}
use mintpool.Types.Data.{Report}
use mintpool.Types.Premint.{PremintTypes, metadata}
use mintpool.Network.State.{Libs}
use mintpool.Network.Gossip.{Message}

-- SHA-256 in hexadecimal: no collisions, and no text of the program's.
pub record DigestLaws (libs : Libs) : Type 0 where
  pub digest_inj : (a b : String) → libs.digest a ≡ libs.digest b → a ≡ b
  pub digest-ne-spam : (a : String) → libs.digest a ≢ "likely_spam"

module _ (libs : Libs) (laws : DigestLaws libs) where
  open laws use {digest_inj, digest-ne-spam}

  -- The texts are premints with one id, or neither is a premint.
  abbrev pub SameId : Result PremintTypes Report → Result PremintTypes Report → Type 0
  SameId (ok p) (ok q) = (metadata libs.formats p).id ≡ (metadata libs.formats q).id
  SameId (err e) (err d) = Unit
  SameId _ _ = ⊥

  abbrev pub parsed : Message → Result PremintTypes Report
  parsed m = libs.json.from_json (libs.from_utf8_lossy m.content)
