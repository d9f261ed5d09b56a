-- ===== src/Mutations/Mints/Updates.antt =====
-- `update_mint` and `retry_update_mint` of api/src/mutations/mint.rs.
use hub_nfts.Prelude.{
  ℕ, Bool, false, not, Option, none, some, List, map, ltb, ◌==◌, if◌then◌else◌, select,
}
use hub_nfts.Entities.{
  Uuid, Action, solana, created, pending, same_status, Edition, unnumbered, numbered, Collection,
  CollectionMint, UpdateHistory, CreationStatus,
}
use hub_nfts.Effects.{
  Db, M, ◌>>=◌, ◌>>◌, pure, raise, lift, ok_or, fail_if, connect, query, insert, update, write,
  read_env, submit, atomically, enqueue, find_by_id, collections_table, mints_table,
  update_histories_table, ◌&>◌,
}
use hub_nfts.Errors.{
  Error, user_id_not_found, organization_id_not_found, balance_not_found, collection_not_found,
  mint_not_found, mint_not_created, mint_is_edition, mint_is_compressed, no_project_wallet,
  update_history_not_found, already_updated, blockchain_not_supported,
}
use hub_nfts.Inputs.{Headers, Creator, MetadataJsonInput, Caller}
use hub_nfts.Messages.{NftEventKey}
use hub_nfts.Validation.{validate_creators, validate_json}
use hub_nfts.Blockchains.Solana
use hub_nfts.Mutations.Common.{
  mint_with_collection, creator_row, fetch_owner, save_metadata, insert_mint_creators,
}
use hub_nfts.Mutations.Mints.ToCollection.{verified_on}

-- `UpdateMintInput`
pub record UpdateMintInput : Type 0 where
  pub id : Uuid
  pub metadata_json : MetadataJsonInput
  pub seller_fee_basis_points : Option ℕ
  pub creators : List Creator

abbrev is_numbered_edition : Edition → Bool
is_numbered_edition unnumbered = false
is_numbered_edition (numbered n) = ltb 0 n

abbrev pub is_compressed : Option Bool → Bool
is_compressed none = false
is_compressed (some b) = b

-- `sfbp.try_into().unwrap_or_default()`: a fee that does not fit an `i16` becomes 0.
abbrev pub saved_fee : ℕ → ℕ
saved_fee n = if ltb n 32768 then n else 0

unfoldable pub update_fee : Uuid → Option ℕ → M Error (Unit {0})
update_fee id none = pure tt
update_fee id (some fee) = do
  update mints_table id (λ m. record m { seller_fee_basis_points = saved_fee fee })
  pure tt

unfoldable pub clear_mint_creators : Uuid → Db → Db
clear_mint_creators id db = record db {
  mint_creators = select (λ r. not (r.of == id)) db.mint_creators;
}

abbrev pub update_history_row : Uuid → Uuid → Uuid → Uuid → UpdateHistory
update_history_row mint user deduction id = record {
  id = id;
  mint_id = mint;
  txn_signature = none;
  status = pending;
  credit_deduction_id = deduction;
  created_by = user;
}

-- The transaction of `update_mint`.
unfoldable pub record_update : Uuid → UpdateMintInput → Uuid → M Error UpdateHistory
record_update user input deduction = do
  connect
  atomically (do
    history ← insert update_histories_table (update_history_row input.id user deduction)
    write (clear_mint_creators input.id)
    insert_mint_creators (map (creator_row input.id) input.creators)
    update_fee input.id input.seller_fee_basis_points
    save_metadata input.id input.metadata_json
    pure history)

unfoldable pub update_mint : Headers → UpdateMintInput → M Error CollectionMint
update_mint headers input = do
  user ← ok_or headers.user_id user_id_not_found
  balance ← ok_or headers.balance balance_not_found
  org ← ok_or headers.organization_id organization_id_not_found
  found ← query (mint_with_collection input.id)
  pair ← ok_or found mint_not_found
  let mint : CollectionMint = pair.0
  fail_if (not (same_status mint.creation_status created)) mint_not_created
  fail_if (is_numbered_edition mint.edition) mint_is_edition
  fail_if (is_compressed mint.compressed) mint_is_compressed
  collection ← ok_or pair.1 collection_not_found
  env ← read_env
  lift (
      validate_creators env collection.blockchain input.creators
      &> validate_json env collection.blockchain input.metadata_json)
  owner ← fetch_owner no_project_wallet collection.project_id collection.blockchain
  lift (verified_on collection.blockchain owner input.creators)
  deduction ← submit org user Action.update_mint collection.blockchain balance
  history ← record_update user input deduction
  enqueue (record { metadata_json = input.metadata_json; caller = Caller.update_mint history.id })
  pure mint

abbrev joined_collection :
    UpdateHistory → Db → Option CollectionMint → Option (UpdateHistory × Option Collection)
joined_collection h db none = none
joined_collection h db (some m) = elim (find_by_id collections_table m.collection_id db) [
  | none ↦ none
  | some c ↦ some (h, some c)
]

abbrev history_join : Db → Option UpdateHistory → Option (UpdateHistory × Option Collection)
history_join db none = none
history_join db (some h) = joined_collection h db (find_by_id mints_table h.mint_id db)

abbrev pub history_with_collection : Uuid → Db → Option (UpdateHistory × Option Collection)
history_with_collection id db = history_join db (find_by_id update_histories_table id db)

abbrev resend_update : Collection → UpdateHistory → NftEventKey → M Error (Unit {0})
resend_update collection history key = elim collection.blockchain [
  | solana ↦
      Solana.retry_update_mint key
        (record { mint_id = history.mint_id; collection_id = collection.id })
  | _ ↦ raise blockchain_not_supported
]

-- Nothing is charged for this retry.
unfoldable pub retry_update_mint : Headers → Uuid → M Error CreationStatus
retry_update_mint headers revision = do
  user ← ok_or headers.user_id user_id_not_found
  found ← query (history_with_collection revision)
  pair ← ok_or found update_history_not_found
  collection ← ok_or pair.1 collection_not_found
  let history : UpdateHistory = pair.0
  fail_if (same_status history.status created) already_updated
  update update_histories_table history.id (λ h. record h { status = pending })
  resend_update collection history
      (record { id = history.id; project_id = collection.project_id; user_id = user })
  pure pending
