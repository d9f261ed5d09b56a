-- ===== src/Mutations/Collections.antt =====
-- The mutations of collections (api/src/mutations/collection.rs): `create_collection`,
-- `retry_collection` and `switch_collection`.
pub mod Created
use hub_nfts.Prelude.{ℕ, String, Bool, false, not, none, some, List, ◌==◌, str_eq, find, is_some}
use hub_nfts.Entities.{
  Uuid, Action, Blockchain, solana, pending, failed, same_status, Collection, CollectionMint,
  SwitchCollectionHistory,
}
use hub_nfts.Effects.{
  M, ◌>>=◌, ◌>>◌, pure, raise, lift, ok_or, fail_if, connect, query, insert, read_clock, read_env,
  submit, send, atomically, enqueue, find_by_id, collections_table, metadata_jsons_table,
  switch_histories_table,
}
use hub_nfts.Errors.{
  Error, user_id_not_found, organization_id_not_found, balance_not_found, collection_not_found,
  mint_not_found, only_failed_retried, metadata_json_not_found, metadata_uri_not_found,
  no_project_wallet, blockchain_not_supported, already_switched, other_project, not_certified,
  mint_is_compressed,
}
use hub_nfts.Inputs.{Headers, Creator, MetadataJsonInput, Caller}
use hub_nfts.Messages.{NftEventKey, MasterEdition, collection_created, in_progress}
use hub_nfts.Validation.{validate_collection, validate_solana_address}
use hub_nfts.Blockchains.Solana
use hub_nfts.Mutations.Common.{
  mint_with_collection, drop_of_collection, proto_creators, fetch_owner,
  insert_each_collection_creator, save_metadata,
}
use hub_nfts.Mutations.Mints.ToCollection.{verified_on}
use hub_nfts.Mutations.Mints.Updates.{is_compressed}
use hub_nfts.Mutations.Drops.{master_edition}

-- `CreateCollectionInput`
pub record CreateCollectionInput : Type 0 where
  pub project : Uuid
  pub blockchain : Blockchain
  pub creators : List Creator
  pub metadata_json : MetadataJsonInput

abbrev pub collection_row : ℕ → Uuid → CreateCollectionInput → Uuid → Uuid → Collection
collection_row now user input deduction id = record {
  id = id;
  blockchain = input.blockchain;
  supply = some 0;
  project_id = input.project;
  credits_deduction_id = some deduction;
  creation_status = pending;
  address = none;
  signature = none;
  seller_fee_basis_points = 0;
  created_by = user;
  created_at = now;
}

-- The transaction of `create_collection`.
unfoldable pub record_collection : Uuid → CreateCollectionInput → Uuid → M Error Collection
record_collection user input deduction = do
  connect
  env ← read_env
  now ← read_clock
  atomically (do
    collection ← insert collections_table (collection_row now user input deduction)
    insert_each_collection_creator env collection.id input.creators
    save_metadata collection.id input.metadata_json
    pure collection)

unfoldable pub create_collection : Headers → CreateCollectionInput → M Error Collection
create_collection headers input = do
  user ← ok_or headers.user_id user_id_not_found
  org ← ok_or headers.organization_id organization_id_not_found
  balance ← ok_or headers.balance balance_not_found
  owner ← fetch_owner no_project_wallet input.project input.blockchain
  env ← read_env
  lift (validate_collection env input.blockchain input.creators input.metadata_json)
  lift (verified_on input.blockchain owner input.creators)
  deduction ← submit org user Action.create_collection input.blockchain balance
  collection ← record_collection user input deduction
  enqueue (record {
    metadata_json = input.metadata_json;
    caller = Caller.create_collection collection.id;
  })
  send (collection_created in_progress)
      (record { id = collection.id; project_id = collection.project_id; user_id = user })
  pure collection

unfoldable pub resend_collection : Blockchain → NftEventKey → MasterEdition → M Error (Unit {0})
resend_collection solana key payload = Solana.retry_create_collection key payload
resend_collection _ key payload = raise blockchain_not_supported

-- The collection keeps its status: only the drop's and the mint's retries set it to pending.
unfoldable pub retry_collection : Headers → Uuid → M Error Collection
retry_collection headers id = do
  user ← ok_or headers.user_id user_id_not_found
  org ← ok_or headers.organization_id organization_id_not_found
  balance ← ok_or headers.balance balance_not_found
  found ← query (find_by_id collections_table id)
  collection ← ok_or found collection_not_found
  fail_if (not (same_status collection.creation_status failed)) only_failed_retried
  found_json ← query (find_by_id metadata_jsons_table collection.id)
  json ← ok_or found_json metadata_json_not_found
  uri ← ok_or json.uri metadata_uri_not_found
  creators ← query (λ db. proto_creators collection.id db.collection_creators)
  owner ← fetch_owner no_project_wallet collection.project_id collection.blockchain
  submit org user Action.retry_collection collection.blockchain balance
  let key : NftEventKey = record {
    id = collection.id;
    user_id = user;
    project_id = collection.project_id;
  }
  resend_collection collection.blockchain key (master_edition owner (some 0) json uri 0 creators)
  pure collection

abbrev pub has_address : String → Collection → Bool
has_address address c = elim c.address [ none ↦ false | some a ↦ str_eq a address ]

abbrev pub switch_row : Uuid → Uuid → Uuid → Uuid → Uuid → SwitchCollectionHistory
switch_row mint collection deduction user id = record {
  id = id;
  collection_mint_id = mint;
  collection_id = collection;
  credit_deduction_id = deduction;
  signature = none;
  status = pending;
  initiated_by = user;
}

-- The part of `switch_collection` after the deduction, by blockchain.
unfoldable pub request_switch :
    Uuid → Collection → Collection → CollectionMint → String → Uuid → M Error (Unit {0})
request_switch user collection new mint address deduction = elim collection.blockchain [
  | solana ↦ read_env >>= λ env.
      lift (validate_solana_address env address)
      >> insert switch_histories_table (switch_row mint.id new.id deduction user)
      >>= λ history.
          Solana.switch_collection
            (record { id = history.id; project_id = collection.project_id; user_id = user })
            (record { mint_id = mint.id; collection_id = new.id })
  | _ ↦ raise blockchain_not_supported
]

unfoldable pub switch_collection : Headers → Uuid → String → M Error CollectionMint
switch_collection headers mint_id address = do
  user ← ok_or headers.user_id user_id_not_found
  org ← ok_or headers.organization_id organization_id_not_found
  balance ← ok_or headers.balance balance_not_found
  found ← query (mint_with_collection mint_id)
  pair ← ok_or found mint_not_found
  collection ← ok_or pair.1 collection_not_found
  found_new ← query (λ db. find (has_address address) db.collections)
  new ← ok_or found_new collection_not_found
  fail_if (collection.id == new.id) already_switched
  fail_if (not (collection.project_id == new.project_id)) other_project
  drop ← query (drop_of_collection new.id)
  fail_if (is_some drop) not_certified
  fail_if (is_compressed pair.0.compressed) mint_is_compressed
  deduction ← submit org user Action.update_mint collection.blockchain balance
  request_switch user collection new pair.0 address deduction
  pure pair.0
