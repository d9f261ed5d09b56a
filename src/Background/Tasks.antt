-- ===== src/Background/Tasks.antt =====
-- What is done once the metadata is uploaded: `After` and `process` of
-- api/src/background_worker/tasks/metadata_json_upload_task.rs.
use hub_nfts.Prelude.{ℕ, String, false, Option, none, some, List, [], ◌∷◌, get_or}
use hub_nfts.Entities.{
  Uuid, Blockchain, ethereum, polygon, solana, Drop, Collection, CollectionMint, UpdateHistory,
  MetadataJson, CreatorRow,
}
use hub_nfts.Effects.{
  M, ◌>>=◌, ◌>>◌, pure, raise, ok_or, query, update, or_error, find_by_id, UploadResponse,
  collections_table, update_histories_table, metadata_jsons_table,
}
use hub_nfts.Messages.{NftEventKey, MasterEdition, MetaplexMetadata, EditionInfo}
use hub_nfts.Blockchains.Solana
use hub_nfts.Blockchains.Polygon
use hub_nfts.Mutations.Common.{
  drop_with_collection, mint_with_collection, creators_of, proto_creator, fetch_owner,
}
use hub_nfts.Background.Errors.{
  TaskError, blockchain_not_supported, record_not_found, no_supply, no_owner, no_project_wallet,
  no_creator, no_metadata_uri, hub_core,
}
use hub_nfts.Prelude.{map}

-- The columns that every task sets.
abbrev pub set_uploaded : UploadResponse → MetadataJson → MetadataJson
set_uploaded response json = record json { uri = some response.uri; identifier = some response.cid }

-- `metadata_json_am.update`, and the URI of the row that it returns.
unfoldable pub store_upload : UploadResponse → MetadataJson → M TaskError (MetadataJson × String)
store_upload response json = do
  stored ← update metadata_jsons_table json.id (set_uploaded response)
  uri ← ok_or stored.uri no_metadata_uri
  pure (stored, uri)

-- `fetch_owner(…).map_err(|_| NoProjectWallet)`
unfoldable pub project_owner : Collection → M TaskError String
project_owner collection =
    or_error no_project_wallet
      (fetch_owner no_project_wallet collection.project_id collection.blockchain)

abbrev pub first_address : List CreatorRow → Option String
first_address [] = none
first_address (c ∷ cs) = some c.address

abbrev pub master_edition_of :
    Collection → Option ℕ → List CreatorRow → String → MetadataJson × String → MasterEdition
master_edition_of collection supply creators owner stored = record {
  owner_address = owner;
  supply = supply;
  name = stored.0.name;
  symbol = stored.0.symbol;
  metadata_uri = stored.1;
  seller_fee_basis_points = collection.seller_fee_basis_points;
  creators = map proto_creator creators;
}

abbrev pub metaplex_metadata_of :
    Collection → List CreatorRow → String → MetadataJson × String → MetaplexMetadata
metaplex_metadata_of collection creators owner stored = record {
  owner_address = owner;
  name = stored.0.name;
  symbol = stored.0.symbol;
  metadata_uri = stored.1;
  seller_fee_basis_points = collection.seller_fee_basis_points;
  creators = map proto_creator creators;
}

abbrev pub edition_info_of : MetadataJson × String → String → EditionInfo
edition_info_of stored creator = record {
  description = stored.0.description;
  image_uri = stored.0.image;
  collection = stored.0.name;
  uri = stored.1;
  creator = creator;
}

abbrev pub collection_key : Collection → Uuid → NftEventKey
collection_key collection user = record {
  id = collection.id;
  user_id = user;
  project_id = collection.project_id;
}

-- The `match` of `CreateDrop`.
unfoldable pub send_create_drop :
    Blockchain
    → Drop
    → Collection
    → List CreatorRow
    → String
    → MetadataJson × String
    → M TaskError (Unit {0})
send_create_drop solana drop collection creators owner stored =
    Solana.create_drop drop.drop_type (collection_key collection collection.created_by)
      (master_edition_of collection collection.supply creators owner stored)
send_create_drop polygon drop collection creators owner stored =
    ok_or collection.supply no_supply >>= λ amount.
    ok_or (first_address creators) no_creator >>= λ creator.
    Polygon.create_drop hub_core drop.drop_type (collection_key collection collection.created_by)
      (record {
        edition_info = some (edition_info_of stored creator);
        amount = amount;
        fee_receiver = owner;
        fee_numerator = collection.seller_fee_basis_points;
      })
send_create_drop ethereum drop collection creators owner stored = raise blockchain_not_supported

unfoldable pub after_create_drop : Uuid → UploadResponse → M TaskError (Unit {0})
after_create_drop drop_id response = do
  found ← query (drop_with_collection drop_id)
  pair ← ok_or found record_not_found
  collection ← ok_or pair.1 record_not_found
  found_json ← query (find_by_id metadata_jsons_table collection.id)
  json ← ok_or found_json record_not_found
  creators ← query (λ db. creators_of collection.id db.collection_creators)
  owner ← project_owner collection
  stored ← store_upload response json
  send_create_drop collection.blockchain pair.0 collection creators owner stored

-- The `match` of `MintToCollection`.
unfoldable pub send_mint_to_collection :
    Blockchain
    → CollectionMint
    → Collection
    → List CreatorRow
    → String
    → String
    → MetadataJson × String
    → M TaskError (Unit {0})
send_mint_to_collection solana mint collection creators owner recipient stored =
    Solana.mint_to_collection
      (record { id = mint.id; user_id = mint.created_by; project_id = collection.project_id })
      (record {
        metadata = metaplex_metadata_of collection creators owner stored;
        recipient_address = recipient;
        compressed = get_or false mint.compressed;
        collection_id = collection.id;
      })
send_mint_to_collection _ mint collection creators owner recipient stored =
    raise blockchain_not_supported

unfoldable pub after_mint_to_collection : Uuid → UploadResponse → M TaskError (Unit {0})
after_mint_to_collection mint_id response = do
  found ← query (mint_with_collection mint_id)
  pair ← ok_or found record_not_found
  collection ← ok_or pair.1 record_not_found
  let mint : CollectionMint = pair.0
  found_json ← query (find_by_id metadata_jsons_table mint.id)
  json ← ok_or found_json record_not_found
  creators ← query (λ db. creators_of mint.id db.mint_creators)
  owner ← project_owner collection
  stored ← store_upload response json
  recipient ← ok_or mint.owner no_owner
  send_mint_to_collection collection.blockchain mint collection creators owner recipient stored

-- The `match` of `CreateCollection`.
unfoldable pub send_create_collection :
    Blockchain
    → Collection
    → List CreatorRow
    → String
    → MetadataJson × String
    → M TaskError (Unit {0})
send_create_collection solana collection creators owner stored =
    Solana.create_collection (collection_key collection collection.created_by)
      (master_edition_of collection (some 0) creators owner stored)
send_create_collection _ collection creators owner stored = raise blockchain_not_supported

unfoldable pub after_create_collection : Uuid → UploadResponse → M TaskError (Unit {0})
after_create_collection collection_id response = do
  found ← query (find_by_id collections_table collection_id)
  collection ← ok_or found record_not_found
  found_json ← query (find_by_id metadata_jsons_table collection.id)
  json ← ok_or found_json record_not_found
  creators ← query (λ db. creators_of collection.id db.collection_creators)
  owner ← project_owner collection
  stored ← store_upload response json
  send_create_collection collection.blockchain collection creators owner stored

-- A queued mint is announced when it is taken from the queue, not here.
unfoldable pub after_queue_mint_to_drop : Uuid → UploadResponse → M TaskError (Unit {0})
after_queue_mint_to_drop mint_id response = do
  found_json ← query (find_by_id metadata_jsons_table mint_id)
  json ← ok_or found_json record_not_found
  update metadata_jsons_table json.id (set_uploaded response)
  pure tt

-- The `match` of `UpdateMint`.
unfoldable pub send_update_mint :
    Blockchain
    → UpdateHistory
    → Collection
    → List CreatorRow
    → String
    → MetadataJson × String
    → M TaskError (Unit {0})
send_update_mint solana history collection creators owner stored =
    Solana.update_collection_mint
      (record { id = history.id; project_id = collection.project_id; user_id = history.created_by })
      (metaplex_metadata_of collection creators owner stored)
      (record { mint_id = history.mint_id; collection_id = collection.id })
send_update_mint _ history collection creators owner stored = raise blockchain_not_supported

unfoldable pub after_update_mint : Uuid → UploadResponse → M TaskError (Unit {0})
after_update_mint history_id response = do
  found_history ← query (find_by_id update_histories_table history_id)
  history ← ok_or found_history record_not_found
  found ← query (mint_with_collection history.mint_id)
  pair ← ok_or found record_not_found
  let mint : CollectionMint = pair.0
  found_json ← query (find_by_id metadata_jsons_table mint.id)
  json ← ok_or found_json record_not_found
  creators ← query (λ db. creators_of mint.id db.mint_creators)
  collection ← ok_or pair.1 record_not_found
  owner ← project_owner collection
  stored ← store_upload response json
  send_update_mint collection.blockchain history collection creators owner stored
