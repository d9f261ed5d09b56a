-- ===== src/Mutations/Common/Queries.antt =====
-- Reads of the database, and conversions (api/src/entities, api/src/mutations/collection.rs).
use hub_nfts.Prelude.{
  ℕ, String, Bool, false, not, ◌&&◌, Option, none, some, List, map, ltb, ◌==◌, if◌then◌else◌, find,
  select, tally, get_or,
}
use hub_nfts.Entities.{
  Uuid, Blockchain, queued, same_status, same_chain, Drop, Collection, CollectionMint, CreatorRow,
}
use hub_nfts.Effects.{
  Db, M, Result, ok, err, ◌>>=◌, query, ok_or, pure, find_by_id, drops_table, collections_table,
  mints_table,
}
use hub_nfts.Errors.{Error, conversion}
use hub_nfts.Inputs.{Creator}
use hub_nfts.Messages.{ProtoCreator}

abbrev paired {ℓ} : {A : Type ℓ} → A → Option Collection → Option (A × Option Collection)
paired row none = none
paired row (some c) = some (row, some c)

-- `drops::Entity::find_by_id_with_collection`, an inner join.
abbrev with_collection : Db → Option Drop → Option (Drop × Option Collection)
with_collection db none = none
with_collection db (some d) = paired d (find_by_id collections_table d.collection_id db)

abbrev pub drop_with_collection : Uuid → Db → Option (Drop × Option Collection)
drop_with_collection id db = with_collection db (find_by_id drops_table id db)

-- `collection_mints::Entity::find_by_id_with_collection`, an inner join.
abbrev mint_collection : Db → Option CollectionMint → Option (CollectionMint × Option Collection)
mint_collection db none = none
mint_collection db (some m) = paired m (find_by_id collections_table m.collection_id db)

abbrev pub mint_with_collection : Uuid → Db → Option (CollectionMint × Option Collection)
mint_with_collection id db = mint_collection db (find_by_id mints_table id db)

-- `find_also_related(collections)`, a left join: the collection may be missing.
abbrev also_collection_of_drop : Db → Option Drop → Option (Drop × Option Collection)
also_collection_of_drop db none = none
also_collection_of_drop db (some d) = some (d, find_by_id collections_table d.collection_id db)

abbrev pub drop_also_collection : Uuid → Db → Option (Drop × Option Collection)
drop_also_collection id db = also_collection_of_drop db (find_by_id drops_table id db)

abbrev also_collection_of_mint :
    Db → Option CollectionMint → Option (CollectionMint × Option Collection)
also_collection_of_mint db none = none
also_collection_of_mint db (some m) = some (m, find_by_id collections_table m.collection_id db)

abbrev pub mint_also_collection : Uuid → Db → Option (CollectionMint × Option Collection)
mint_also_collection id db = also_collection_of_mint db (find_by_id mints_table id db)

-- `drops` filtered by the collection.
abbrev pub drop_of_collection : Uuid → Db → Option Drop
drop_of_collection id db = find (λ d. d.collection_id == id) db.drops

-- `collection_mints::Entity::filter_by_collection`: a queued mint does not count.
abbrev pub counts_for : Uuid → CollectionMint → Bool
counts_for id m = m.collection_id == id && not (same_status m.creation_status queued)

abbrev pub minted : Uuid → Db → ℕ
minted id db = tally (counts_for id) db.mints

abbrev pub creators_of : Uuid → List CreatorRow → List CreatorRow
creators_of id rows = select (λ r. r.of == id) rows

-- `i64::try_from` and `i16::try_from`.
abbrev pub to_i64 : ℕ → Option ℕ
to_i64 n = if ltb n 9223372036854775808 then some n else none

abbrev pub to_i16 : ℕ → Option ℕ
to_i16 n = if ltb n 32768 then some n else none

-- `supply.map(TryInto::try_into).transpose()?`
abbrev pub optional_i64 : Option ℕ → Result Error (Option ℕ)
optional_i64 none = ok none
optional_i64 (some n) = if ltb n 9223372036854775808 then ok (some n) else err conversion

-- `fetch_owner`: the wallet of the project, or the error that the caller makes of it.
unfoldable pub fetch_owner : {E : Type 0} → E → Uuid → Blockchain → M E String
fetch_owner error project chain = do
  wallet ← query (λ db.
      find (λ r. r.project_id == project && same_chain r.blockchain chain) db.project_wallets)
  row ← ok_or wallet error
  pure row.wallet_address

-- `impl From<Model> for proto::Creator`
abbrev pub proto_creator : CreatorRow → ProtoCreator
proto_creator r = record { address = r.address; verified = r.verified; share = r.share }

abbrev pub proto_creators : Uuid → List CreatorRow → List ProtoCreator
proto_creators id rows = map proto_creator (creators_of id rows)

-- The row for a creator of the request. Its share, a `u8`, always fits the column.
abbrev pub creator_row : Uuid → Creator → CreatorRow
creator_row of c = record {
  of = of;
  address = c.address;
  verified = get_or false c.verified;
  share = c.share;
}
