-- ===== src/Events/Ownership.antt =====
-- Wallets and owners: `project_wallet_created`, `customer_wallet_created`, `update_mint_owner` and
-- `update_polygon_mints_owner` of api/src/events.rs.
use hub_nfts.Prelude.{String, Bool, false, Option, none, some, List, [], ◌∷◌, ◌==◌, ◌||◌, select}
use hub_nfts.Entities.{Uuid, Time, CollectionMint, NftTransfer}
use hub_nfts.Effects.{
  Env, ◌>>=◌, ◌>>◌, pure, lift, ok_or, connect, query, insert, update, read_env, read_clock,
  atomically, each, find_by_id, mints_table, nft_transfers_table, project_wallets_table,
  customer_wallets_table,
}
use hub_nfts.Events.Results.{
  ProtoBlockchain, to_blockchain, invalid_uuid, invalid_timestamp, db_missing_collection_mint,
  record_missing_owner,
}
use hub_nfts.Events.Creation.{Process}

unfoldable pub project_wallet_created : String → String → ProtoBlockchain → Process
project_wallet_created project_id address blockchain = do
  env ← read_env
  project ← ok_or (env.parse_uuid project_id) invalid_uuid
  chain ← lift (to_blockchain blockchain)
  insert project_wallets_table (λ id. record {
    id = id;
    project_id = project;
    wallet_address = env.before_save address;
    blockchain = chain;
  })
  pure tt

unfoldable pub customer_wallet_created : String → String → ProtoBlockchain → Process
customer_wallet_created customer_id address blockchain = do
  env ← read_env
  customer ← ok_or (env.parse_uuid customer_id) invalid_uuid
  chain ← lift (to_blockchain blockchain)
  insert customer_wallets_table (λ id. record {
    id = id;
    customer_id = customer;
    address = env.before_save address;
    blockchain = chain;
  })
  pure tt

abbrev pub set_owner : Env → String → CollectionMint → CollectionMint
set_owner env owner m = record m { owner = some (env.before_save owner) }

abbrev pub transfer_row : Env → String → Uuid → String → String → Time → Uuid → NftTransfer
transfer_row env signature mint sender recipient now id = record {
  id = id;
  tx_signature = some signature;
  collection_mint_id = mint;
  sender = env.before_save sender;
  recipient = env.before_save recipient;
  created_at = now;
}

-- `MintOwnershipUpdate`. The two writes are not in a transaction.
unfoldable pub update_mint_owner : String → String → String → String → Process
update_mint_owner id sender recipient signature = do
  env ← read_env
  mint_id ← ok_or (env.parse_uuid id) invalid_uuid
  found ← query (find_by_id mints_table mint_id)
  mint ← ok_or found db_missing_collection_mint
  update mints_table mint.id (set_owner env recipient)
  now ← read_clock
  insert nft_transfers_table (transfer_row env signature mint_id sender recipient now)
  pure tt

-- `MintedTokensOwnershipUpdate`; `timestamp` is `none` where it is missing or out of range.
pub record OwnershipUpdate : Type 0 where
  pub mint_ids : List String
  pub new_owner : String
  pub timestamp : Option Time
  pub transaction_hash : String

abbrev parsed : Option Uuid → Option (List Uuid) → Option (List Uuid)
parsed none rest = none
parsed (some id) none = none
parsed (some id) (some ids) = some (id ∷ ids)

abbrev pub parse_uuids : Env → List String → Option (List Uuid)
parse_uuids env [] = some []
parse_uuids env (s ∷ ss) = parsed (env.parse_uuid s) (parse_uuids env ss)

abbrev pub is_in : List Uuid → Uuid → Bool
is_in [] id = false
is_in (x ∷ xs) id = x == id || is_in xs id

-- The body of the loop, for a mint as it was read.
unfoldable pub hand_over : Env → OwnershipUpdate → Time → CollectionMint → Process
hand_over env payload created_at mint = do
  update mints_table mint.id (set_owner env payload.new_owner)
  sender ← ok_or mint.owner record_missing_owner
  insert nft_transfers_table
      (transfer_row env payload.transaction_hash mint.id sender payload.new_owner created_at)
  pure tt

unfoldable pub update_polygon_mints_owner : OwnershipUpdate → Process
update_polygon_mints_owner payload = do
  env ← read_env
  created_at ← ok_or payload.timestamp invalid_timestamp
  connect
  ids ← ok_or (parse_uuids env payload.mint_ids) invalid_uuid
  mints ← query (λ db. select (λ m. is_in ids m.id) db.mints)
  atomically (each (hand_over env payload created_at) mints)
