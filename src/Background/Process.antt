-- ===== src/Background/Process.antt =====
-- The tasks of the patches, `Caller`, and `process`
-- (api/src/background_worker/tasks/metadata_json_upload_task.rs).
use hub_nfts.Prelude.{some, List}
use hub_nfts.Entities.{
  Uuid, Blockchain, ethereum, polygon, solana, Drop, Collection, MetadataJson, CreatorRow,
}
use hub_nfts.Prelude.{String}
use hub_nfts.Inputs.{Caller, MetadataJsonUploadTask}
use hub_nfts.Effects.{
  M, ◌>>=◌, raise, ok_or, query, upload, find_by_id, UploadResponse, collections_table,
  metadata_jsons_table,
}
use hub_nfts.Blockchains.Solana
use hub_nfts.Blockchains.Polygon
use hub_nfts.Mutations.Common.{drop_with_collection, creators_of}
use hub_nfts.Background.Errors.{
  TaskError, blockchain_not_supported, record_not_found, no_creator, hub_core,
}
use hub_nfts.Background.Tasks.{
  store_upload, project_owner, first_address, master_edition_of, edition_info_of, collection_key,
  after_create_drop, after_mint_to_collection, after_create_collection, after_queue_mint_to_drop,
  after_update_mint,
}

-- The `match` of `PatchCollection`.
unfoldable pub send_patch_collection :
    Blockchain
    → Uuid
    → Collection
    → List CreatorRow
    → String
    → MetadataJson × String
    → M TaskError (Unit {0})
send_patch_collection solana user collection creators owner stored =
    Solana.update_collection (collection_key collection user)
      (master_edition_of collection (some 0) creators owner stored)
send_patch_collection _ user collection creators owner stored = raise blockchain_not_supported

unfoldable pub after_patch_collection : Uuid → Uuid → UploadResponse → M TaskError (Unit {0})
after_patch_collection collection_id user response = do
  found ← query (find_by_id collections_table collection_id)
  collection ← ok_or found record_not_found
  found_json ← query (find_by_id metadata_jsons_table collection.id)
  json ← ok_or found_json record_not_found
  creators ← query (λ db. creators_of collection.id db.collection_creators)
  owner ← project_owner collection
  stored ← store_upload response json
  send_patch_collection collection.blockchain user collection creators owner stored

-- The `match` of `PatchDrop`.
unfoldable pub send_patch_drop :
    Blockchain
    → Uuid
    → Drop
    → Collection
    → List CreatorRow
    → String
    → MetadataJson × String
    → M TaskError (Unit {0})
send_patch_drop solana user drop collection creators owner stored =
    Solana.update_drop drop.drop_type (collection_key collection user)
      (master_edition_of collection collection.supply creators owner stored)
send_patch_drop polygon user drop collection creators owner stored =
    ok_or (first_address creators) no_creator >>= λ creator.
    Polygon.update_drop hub_core drop.drop_type (collection_key collection user)
      (edition_info_of stored creator)
send_patch_drop ethereum user drop collection creators owner stored = raise blockchain_not_supported

unfoldable pub after_patch_drop : Uuid → Uuid → UploadResponse → M TaskError (Unit {0})
after_patch_drop drop_id user response = do
  found ← query (drop_with_collection drop_id)
  pair ← ok_or found record_not_found
  collection ← ok_or pair.1 record_not_found
  found_json ← query (find_by_id metadata_jsons_table collection.id)
  json ← ok_or found_json record_not_found
  creators ← query (λ db. creators_of collection.id db.collection_creators)
  owner ← project_owner collection
  stored ← store_upload response json
  send_patch_drop collection.blockchain user pair.0 collection creators owner stored

-- `Caller::after`
unfoldable pub after : Caller → UploadResponse → M TaskError (Unit {0})
after (Caller.create_drop drop) response = after_create_drop drop response
after (Caller.mint_to_collection mint) response = after_mint_to_collection mint response
after (Caller.create_collection collection) response = after_create_collection collection response
after (Caller.queue_mint_to_drop _ mint) response = after_queue_mint_to_drop mint response
after (Caller.update_mint history) response = after_update_mint history response
after (Caller.patch_collection collection user) response =
    after_patch_collection collection user response
after (Caller.patch_drop drop user) response = after_patch_drop drop user response

-- `MetadataJsonUploadTask::process`
unfoldable pub process_task : MetadataJsonUploadTask → M TaskError (Unit {0})
process_task task = do response ← upload task.metadata_json; after task.caller response
