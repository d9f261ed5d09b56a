-- ===== src/Events/Creation.antt =====
-- What a transaction's outcome does to the rows that it creates: `drop_created`,
-- `collection_created`, `drop_minted` and `minted_to_collection` of api/src/events.rs.
use hub_nfts.Prelude.{String, Option, none, some, ◌==◌, find}
use hub_nfts.Entities.{Uuid, created, failed, Drop, Collection, CollectionMint, MintHistory}
use hub_nfts.Effects.{
  Env, Db, M, ◌>>=◌, ◌>>◌, pure, ok_or, query, update, read_env, confirm, send, find_by_id,
  drops_table, collections_table, mints_table, mint_histories_table,
}
use hub_nfts.Messages.{
  NftCreationStatus, completed, drop_created, drop_minted, minted_to_collection,
}
use hub_nfts.Mutations.Common.{mint_with_collection, mint_also_collection, drop_of_collection}
use hub_nfts.Events.Results.{
  ProcessorError, MintResult, invalid_uuid, db_missing_collection, db_missing_drop,
  db_missing_collection_mint, db_missing_mint_history, record_missing_deduction_id,
}

abbrev pub Process : Type 0
Process = M ProcessorError (Unit {0})

-- The columns that an outcome sets.
abbrev pub settle_drop : MintResult → Drop → Drop
settle_drop (MintResult.success _ _) d = record d { creation_status = created }
settle_drop MintResult.failure d = record d { creation_status = failed }

abbrev pub settle_collection : Env → MintResult → Collection → Collection
settle_collection env (MintResult.success signature address) c = record c {
  signature = some signature;
  address = some (env.before_save address);
  creation_status = created;
}
settle_collection env MintResult.failure c = record c { creation_status = failed }

abbrev pub settle_mint : Env → MintResult → CollectionMint → CollectionMint
settle_mint env (MintResult.success signature address) m = record m {
  creation_status = created;
  signature = some signature;
  address = some (env.before_save address);
}
settle_mint env MintResult.failure m = record m { creation_status = failed }

abbrev pub settle_history : MintResult → MintHistory → MintHistory
settle_history (MintResult.success signature _) h = record h {
  status = created;
  tx_signature = some signature;
}
settle_history MintResult.failure h = record h { status = failed }

abbrev pub reported : MintResult → NftCreationStatus
reported (MintResult.success _ _) = completed
reported MintResult.failure = NftCreationStatus.failed

-- A success confirms the deduction of the row; a failure confirms nothing.
unfoldable pub confirm_success : MintResult → Option Uuid → Process
confirm_success (MintResult.success _ _) deduction = do
  id ← ok_or deduction record_missing_deduction_id
  confirm id
confirm_success MintResult.failure deduction = pure tt

-- The inner join of a collection with its drop.
abbrev paired_drop : Collection → Option Drop → Option (Collection × Option Drop)
paired_drop c none = none
paired_drop c (some d) = some (c, some d)

abbrev collection_join : Db → Option Collection → Option (Collection × Option Drop)
collection_join db none = none
collection_join db (some c) = paired_drop c (drop_of_collection c.id db)

abbrev pub collection_with_drop : Uuid → Db → Option (Collection × Option Drop)
collection_with_drop id db = collection_join db (find_by_id collections_table id db)

unfoldable pub drop_created_handler : String → MintResult → Process
drop_created_handler id payload = do
  env ← read_env
  collection_id ← ok_or (env.parse_uuid id) invalid_uuid
  found ← query (collection_with_drop collection_id)
  pair ← ok_or found db_missing_collection
  drop ← ok_or pair.1 db_missing_drop
  confirm_success payload drop.credits_deduction_id
  send (drop_created (reported payload) pair.0.id)
      (record { id = drop.id; project_id = drop.project_id; user_id = drop.created_by })
  update collections_table pair.0.id (settle_collection env payload)
  update drops_table drop.id (settle_drop payload)
  pure tt

-- The event that is sent is the drop's, `NftEvent::DropCreated`.
unfoldable pub collection_created_handler : String → MintResult → Process
collection_created_handler id payload = do
  env ← read_env
  collection_id ← ok_or (env.parse_uuid id) invalid_uuid
  found ← query (find_by_id collections_table collection_id)
  collection ← ok_or found db_missing_collection
  confirm_success payload collection.credits_deduction_id
  send (drop_created (reported payload) collection.id) (record {
    id = collection.id;
    project_id = collection.project_id;
    user_id = collection.created_by;
  })
  update collections_table collection.id (settle_collection env payload)
  pure tt

abbrev pub history_of_mint : Uuid → Db → Option MintHistory
history_of_mint id db = find (λ h. h.mint_id == id) db.mint_histories

unfoldable pub drop_minted_handler : String → MintResult → Process
drop_minted_handler id payload = do
  env ← read_env
  mint_id ← ok_or (env.parse_uuid id) invalid_uuid
  found ← query (mint_also_collection mint_id)
  pair ← ok_or found db_missing_collection_mint
  found_history ← query (history_of_mint mint_id)
  history ← ok_or found_history db_missing_mint_history
  collection ← ok_or pair.1 db_missing_collection
  found_drop ← query (drop_of_collection collection.id)
  drop ← ok_or found_drop db_missing_drop
  confirm_success payload pair.0.credits_deduction_id
  send (drop_minted drop.id (reported payload))
      (record { id = pair.0.id; project_id = drop.project_id; user_id = pair.0.created_by })
  update mints_table pair.0.id (settle_mint env payload)
  update mint_histories_table history.id (settle_history payload)
  pure tt

-- The duration that goes to the metrics is left out.
unfoldable pub minted_to_collection_handler : String → MintResult → Process
minted_to_collection_handler id payload = do
  env ← read_env
  mint_id ← ok_or (env.parse_uuid id) invalid_uuid
  found ← query (mint_with_collection mint_id)
  pair ← ok_or found db_missing_collection_mint
  found_history ← query (history_of_mint mint_id)
  history ← ok_or found_history db_missing_mint_history
  collection ← ok_or pair.1 db_missing_collection
  confirm_success payload pair.0.credits_deduction_id
  send (minted_to_collection collection.id (reported payload))
      (record { id = pair.0.id; project_id = collection.project_id; user_id = pair.0.created_by })
  update mints_table pair.0.id (settle_mint env payload)
  update mint_histories_table history.id (settle_history payload)
  pure tt
