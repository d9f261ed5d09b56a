-- ===== src/Mutations/Patches/OfCollection.antt =====
-- `patch_collection` of api/src/mutations/collection.rs. The upload task is enqueued, or the event
-- sent, before the transaction is committed.
use hub_nfts.Prelude.{String, Option, none, some, List}
use hub_nfts.Entities.{Uuid, Blockchain, solana, Collection, MetadataJson}
use hub_nfts.Effects.{
  M, ◌>>=◌, ◌>>◌, pure, raise, lift, ok_or, connect, query, read_env, atomically, find_by_id,
  collections_table, metadata_jsons_table,
}
use hub_nfts.Errors.{
  Error, user_id_not_found, collection_not_found, metadata_json_not_found, metadata_uri_not_found,
  no_project_wallet, blockchain_not_supported,
}
use hub_nfts.Inputs.{Headers, Creator, MetadataJsonInput, Caller}
use hub_nfts.Messages.{NftEventKey, ProtoCreator}
use hub_nfts.Blockchains.Solana
use hub_nfts.Mutations.Common.{proto_creators, fetch_owner}
use hub_nfts.Mutations.Drops.{master_edition}
use hub_nfts.Mutations.Patches.{check_creators, check_json, replace_creators, replace_metadata}

pub record PatchCollectionInput : Type 0 where
  pub id : Uuid
  pub metadata_json : Option MetadataJsonInput
  pub creators : Option (List Creator)

unfoldable pub send_updated_collection :
    Blockchain
    → NftEventKey
    → String
    → MetadataJson
    → String
    → List ProtoCreator
    → M Error (Unit {0})
send_updated_collection solana key owner json uri creators =
    Solana.update_collection key (master_edition owner (some 0) json uri 0 creators)
send_updated_collection _ key owner json uri creators = raise blockchain_not_supported

unfoldable pub finish_collection_patch :
    Option MetadataJsonInput
    → Uuid
    → Collection
    → String
    → MetadataJson
    → List ProtoCreator
    → M Error (Unit {0})
finish_collection_patch (some json) user collection owner model creators =
    replace_metadata collection.id json (Caller.patch_collection collection.id user)
finish_collection_patch none user collection owner model creators =
    ok_or model.uri metadata_uri_not_found >>= λ uri.
    send_updated_collection collection.blockchain
      (record { id = collection.id; user_id = user; project_id = collection.project_id }) owner
      model uri creators

-- The transaction of `patch_collection`.
unfoldable pub write_collection_patch :
    PatchCollectionInput
    → Uuid
    → Collection
    → String
    → MetadataJson
    → List ProtoCreator
    → M Error (Unit {0})
write_collection_patch input user collection owner model current = do
  creators ← replace_creators collection.id input.creators current
  finish_collection_patch input.metadata_json user collection owner model creators

unfoldable pub patch_collection : Headers → PatchCollectionInput → M Error Collection
patch_collection headers input = do
  user ← ok_or headers.user_id user_id_not_found
  found ← query (find_by_id collections_table input.id)
  collection ← ok_or found collection_not_found
  owner ← fetch_owner no_project_wallet collection.project_id collection.blockchain
  env ← read_env
  lift (check_creators env collection.blockchain owner input.creators)
  lift (check_json env collection.blockchain input.metadata_json)
  found_json ← query (find_by_id metadata_jsons_table collection.id)
  model ← ok_or found_json metadata_json_not_found
  current ← query (λ db. proto_creators collection.id db.collection_creators)
  connect
  atomically (write_collection_patch input user collection owner model current)
  pure collection
