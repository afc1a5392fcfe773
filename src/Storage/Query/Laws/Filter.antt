-- ===== src/Storage/Query/Laws/Filter.antt =====
-- The filters of `build_query` (src/storage.rs) on the rows that `store` writes.
use mintpool.Prelude.{When, ◌≡◌, String, true}
use mintpool.Prelude.Order.{leb_text}
use mintpool.Types.Data.{Formats, PremintMetadata}
use mintpool.Storage.Query.{QueryOptions}

-- The options name a premint that was first stored at a time.
pub record Selects (f : Formats) (o : QueryOptions) (m : PremintMetadata) (created_at : String)
    : Type 0 where
  pub by_kind : When o.kind (λ k. m.kind.name ≡ k)
  pub by_chain : When o.chain_id (λ c. m.chain_id ≡ c)
  pub by_collection : When o.collection_address (λ a. m.collection_address ≡ a)
  pub by_creator : When o.creator_address (λ a. m.signer ≡ a)
  pub by_from : When o.from (λ t. leb_text (f.time_to_string t) created_at ≡ true)
  pub by_to : When o.to (λ t. leb_text created_at (f.time_to_string t) ≡ true)
