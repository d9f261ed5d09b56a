-- ===== src/Mutations/Mints/Queue.antt =====
-- The queue of a drop: `queue_mint_to_drop` and `mint_queued` of api/src/mutations/mint.rs.
use hub_nfts.Prelude.{
  ℕ, zero, suc, ◌%◌, String, Bool, not, ◌&&◌, Option, none, some, List, [], ◌∷◌, map, ltb, ◌==◌,
  if◌then◌else◌, select, length, get_elem?, remove_at,
}
use hub_nfts.Entities.{
  Uuid, Action, Blockchain, ethereum, polygon, solana, pending, queued, same_status, same_chain,
  unnumbered, Drop, Collection, CollectionMint, MetadataJson, CreatorRow,
}
use hub_nfts.Effects.{
  Env, Db, M, ◌>>=◌, ◌>>◌, pure, raise, ok_or, fail_if, connect, query, random_query, insert,
  update, read_clock, read_env, submit, send, cache_del, atomically, enqueue, total_mints, supply,
  find_by_id, drops_table, collections_table, mints_table, mint_histories_table,
  metadata_jsons_table,
}
use hub_nfts.Errors.{
  Error, user_id_not_found, organization_id_not_found, balance_not_found, drop_not_found,
  collection_not_found, mint_not_found, not_queued, no_project_wallet, metadata_json_not_found,
  metadata_uri_not_found, blockchain_not_supported, no_queued_mint, no_recipients, batch_too_large,
  not_enough_mints, only_solana,
}
use hub_nfts.Inputs.{Headers, MetadataJsonInput, MetadataJsonUploadTask, Caller}
use hub_nfts.Messages.{
  NftCreationStatus, NftEventKey, MetaplexMetadata, MintOpenDrop, drop_minted, in_progress,
  solana_mint_open_drop_batched,
}
use hub_nfts.Blockchains.Solana
use hub_nfts.Blockchains.Solana.{open_mint}
use hub_nfts.Mutations.Common.{
  drop_with_collection, mint_with_collection, drop_of_collection, creators_of, proto_creator,
  proto_creators, fetch_owner, insert_mint_creators, save_metadata,
}
use hub_nfts.Mutations.Mints.Editions.{copy_creator, pending_history}
pub mod Once

-- A queued mint has no owner, no deduction, and the default edition.
abbrev pub queued_row : Uuid → Uuid → Drop → Collection → Uuid → CollectionMint
queued_row now user drop collection id = record {
  id = id;
  collection_id = drop.collection_id;
  address = none;
  owner = none;
  creation_status = queued;
  created_by = user;
  created_at = now;
  signature = none;
  edition = unnumbered;
  seller_fee_basis_points = collection.seller_fee_basis_points;
  credits_deduction_id = none;
  compressed = none;
}

unfoldable pub queue_mint_to_drop : Headers → Uuid → MetadataJsonInput → M Error CollectionMint
queue_mint_to_drop headers drop_id json = do
  connect
  user ← ok_or headers.user_id user_id_not_found
  found ← query (drop_with_collection drop_id)
  pair ← ok_or found drop_not_found
  let drop : Drop = pair.0
  collection ← ok_or pair.1 collection_not_found
  creators ← query (λ db. creators_of collection.id db.collection_creators)
  connect
  now ← read_clock
  mint ← atomically (do
    mint ← insert mints_table (queued_row now user drop collection)
    save_metadata mint.id json
    insert_mint_creators (map (copy_creator mint.id) creators)
    pure mint)
  enqueue (record { metadata_json = json; caller = Caller.queue_mint_to_drop drop.id mint.id })
  cache_del (supply drop.collection_id)
  send (drop_minted drop.id NftCreationStatus.queued)
      (record { id = mint.id; project_id = drop.project_id; user_id = mint.created_by })
  pure mint

abbrev pub mint_action : Bool → Action
mint_action compressed = if compressed then Action.mint_compressed else Action.mint

-- The columns that turn a queued mint into a pending one.
abbrev pub claimed : Env → Uuid → Bool → String → Collection → CollectionMint → CollectionMint
claimed env deduction compressed recipient collection m = record m {
  creation_status = pending;
  credits_deduction_id = some deduction;
  compressed = some compressed;
  owner = some (env.before_save recipient);
  seller_fee_basis_points = collection.seller_fee_basis_points;
}

-- The transaction of the three mutations that mint from the queue.
unfoldable pub claim : Uuid → Uuid → Bool → String → Collection → M Error CollectionMint
claim mint_id deduction compressed recipient collection = do
  connect
  env ← read_env
  now ← read_clock
  atomically (do
    mint ← update mints_table mint_id (claimed env deduction compressed recipient collection)
    insert mint_histories_table (pending_history env now mint recipient)
    pure mint)

abbrev pub mint_metadata :
    String → MetadataJson → String → CollectionMint → List CreatorRow → MetaplexMetadata
mint_metadata owner json uri mint creators = record {
  owner_address = owner;
  name = json.name;
  symbol = json.symbol;
  metadata_uri = uri;
  seller_fee_basis_points = mint.seller_fee_basis_points;
  creators = map proto_creator creators;
}

unfoldable pub send_open_mint :
    Collection → NftEventKey → MetaplexMetadata → String → Bool → M Error (Unit {0})
send_open_mint collection key metadata recipient compressed = elim collection.blockchain [
  | solana ↦ Solana.mint_drop key (
      open_mint (record {
        metadata = metadata;
        recipient_address = recipient;
        compressed = compressed;
        collection_id = collection.id;
      }))
  | _ ↦ raise blockchain_not_supported
]

-- What `mint_queued` and `mint_random_queued_to_drop` do with the mint that they have found.
unfoldable pub mint_found :
    Uuid → Uuid → ℕ → Drop → CollectionMint → Collection → String → Bool → M Error CollectionMint
mint_found user org balance drop mint collection recipient compressed = do
  owner ← fetch_owner no_project_wallet collection.project_id collection.blockchain
  found_json ← query (find_by_id metadata_jsons_table mint.id)
  json ← ok_or found_json metadata_json_not_found
  uri ← ok_or json.uri metadata_uri_not_found
  creators ← query (λ db. creators_of mint.id db.mint_creators)
  deduction ← submit org user (mint_action compressed) collection.blockchain balance
  new ← claim mint.id deduction compressed recipient collection
  cache_del (total_mints collection.id)
  send_open_mint collection
      (record { id = new.id; user_id = user; project_id = collection.project_id })
      (mint_metadata owner json uri new creators) recipient compressed
  send (drop_minted drop.id in_progress)
      (record { id = new.id; project_id = drop.project_id; user_id = user })
  pure new

unfoldable pub mint_queued : Headers → Uuid → String → Bool → M Error CollectionMint
mint_queued headers mint_id recipient compressed = do
  connect
  user ← ok_or headers.user_id user_id_not_found
  org ← ok_or headers.organization_id organization_id_not_found
  balance ← ok_or headers.balance balance_not_found
  found ← query (mint_with_collection mint_id)
  pair ← ok_or found mint_not_found
  fail_if (not (same_status pair.0.creation_status queued)) not_queued
  collection ← ok_or pair.1 collection_not_found
  found_drop ← query (drop_of_collection collection.id)
  drop ← ok_or found_drop drop_not_found
  mint_found user org balance drop pair.0 collection recipient compressed
