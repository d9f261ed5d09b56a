-- ===== src/Mutations/Mints/ToCollection.antt =====
-- `mint_to_collection` and `retry_mint_to_collection` of api/src/mutations/mint.rs.
pub mod Minted
use hub_nfts.Prelude.{ℕ, String, Bool, false, not, Option, none, some, List, get_or}
use hub_nfts.Entities.{
  Uuid, Action, Blockchain, solana, pending, failed, same_status, unnumbered, Collection,
  CollectionMint,
}
use hub_nfts.Effects.{
  Env, M, ok, ◌>>=◌, ◌>>◌, pure, raise, lift, ok_or, fail_if, connect, query, insert, update,
  read_clock, read_env, submit, send, cache_del, atomically, enqueue, total_mints, find_by_id,
  collections_table, mints_table, mint_histories_table, metadata_jsons_table, ◌&>◌,
}
use hub_nfts.Errors.{
  Error, user_id_not_found, organization_id_not_found, balance_not_found, collection_not_found,
  mint_not_found, only_failed_retried, no_owner, no_compressed, no_project_wallet,
  metadata_json_not_found, metadata_uri_not_found, blockchain_not_supported, conversion,
}
use hub_nfts.Inputs.{Headers, Creator, MetadataJsonInput, Caller}
use hub_nfts.Messages.{NftEventKey, MetaplexMetadata, minted_to_collection, in_progress}
use hub_nfts.Validation.{
  Check, validate_creators, validate_json, check_collection_status, validate_compress,
  validate_solana_creator_verification,
}
use hub_nfts.Blockchains.Solana
use hub_nfts.Mutations.Common.{
  mint_with_collection, creators_of, to_i16, fetch_owner, save_metadata, insert_each_mint_creator,
}
use hub_nfts.Mutations.Mints.Editions.{pending_history, set_pending}
use hub_nfts.Mutations.Mints.Queue.{mint_action, mint_metadata}

-- `MintToCollectionInput`
pub record MintToCollectionInput : Type 0 where
  pub collection : Uuid
  pub recipient : String
  pub metadata_json : MetadataJsonInput
  pub seller_fee_basis_points : Option ℕ
  pub creators : List Creator
  pub compressed : Option Bool

-- The checks that need no owner.
abbrev validate_mint : Env → MintToCollectionInput → Collection → Check
validate_mint env input collection =
    validate_creators env collection.blockchain input.creators
    &> validate_json env collection.blockchain input.metadata_json
    &> check_collection_status collection
    &> validate_compress collection.blockchain (get_or false input.compressed)

abbrev pub verified_on : Blockchain → String → List Creator → Check
verified_on solana owner creators = validate_solana_creator_verification owner creators
verified_on _ owner creators = ok tt

abbrev pub collection_mint_row :
    Env → Uuid → Uuid → Uuid → MintToCollectionInput → ℕ → Uuid → Uuid → CollectionMint
collection_mint_row env now user collection_id input fee deduction id = record {
  id = id;
  collection_id = collection_id;
  address = none;
  owner = some (env.before_save input.recipient);
  creation_status = pending;
  created_by = user;
  created_at = now;
  signature = none;
  edition = unnumbered;
  seller_fee_basis_points = fee;
  credits_deduction_id = some deduction;
  compressed = some (get_or false input.compressed);
}

-- The transaction of `mint_to_collection`.
unfoldable pub record_mint :
    Uuid → Collection → MintToCollectionInput → Uuid → M Error CollectionMint
record_mint user collection input deduction = do
  connect
  env ← read_env
  now ← read_clock
  atomically (do
    fee ← ok_or (to_i16 (get_or 0 input.seller_fee_basis_points)) conversion
    mint ← insert mints_table (collection_mint_row env now user collection.id input fee deduction)
    save_metadata mint.id input.metadata_json
    insert_each_mint_creator env mint.id input.creators
    insert mint_histories_table (pending_history env now mint input.recipient)
    pure mint)

unfoldable pub mint_to_collection : Headers → MintToCollectionInput → M Error CollectionMint
mint_to_collection headers input = do
  connect
  user ← ok_or headers.user_id user_id_not_found
  org ← ok_or headers.organization_id organization_id_not_found
  balance ← ok_or headers.balance balance_not_found
  found ← query (find_by_id collections_table input.collection)
  collection ← ok_or found collection_not_found
  env ← read_env
  lift (validate_mint env input collection)
  owner ← fetch_owner no_project_wallet collection.project_id collection.blockchain
  lift (verified_on collection.blockchain owner input.creators)
  deduction ←
      submit org user (mint_action (get_or false input.compressed)) collection.blockchain balance
  mint ← record_mint user collection input deduction
  cache_del (total_mints collection.id)
  enqueue
      (record { metadata_json = input.metadata_json; caller = Caller.mint_to_collection mint.id })
  send (minted_to_collection collection.id in_progress)
      (record { id = mint.id; project_id = collection.project_id; user_id = user })
  pure mint

abbrev resend_mint :
    Collection
    → CollectionMint
    → NftEventKey
    → MetaplexMetadata
    → String
    → Bool
    → M Error (Unit {0})
resend_mint collection mint key metadata recipient compressed = elim collection.blockchain [
  | solana ↦ Solana.retry_mint_to_collection key (record {
    metadata = metadata;
    recipient_address = recipient;
    compressed = compressed;
    collection_id = mint.collection_id;
  })
  | _ ↦ raise blockchain_not_supported
]

unfoldable pub retry_mint_to_collection : Headers → Uuid → M Error CollectionMint
retry_mint_to_collection headers id = do
  user ← ok_or headers.user_id user_id_not_found
  org ← ok_or headers.organization_id organization_id_not_found
  balance ← ok_or headers.balance balance_not_found
  found ← query (mint_with_collection id)
  pair ← ok_or found mint_not_found
  let mint : CollectionMint = pair.0
  fail_if (not (same_status mint.creation_status failed)) only_failed_retried
  collection ← ok_or pair.1 collection_not_found
  recipient ← ok_or mint.owner no_owner
  compressed ← ok_or mint.compressed no_compressed
  owner ← fetch_owner no_project_wallet collection.project_id collection.blockchain
  found_json ← query (find_by_id metadata_jsons_table mint.id)
  json ← ok_or found_json metadata_json_not_found
  uri ← ok_or json.uri metadata_uri_not_found
  creators ← query (λ db. creators_of mint.id db.mint_creators)
  submit org user Action.retry_mint collection.blockchain balance
  resend_mint collection mint
      (record { id = mint.id; user_id = user; project_id = collection.project_id })
      (mint_metadata owner json uri mint creators) recipient compressed
  update mints_table mint.id set_pending
