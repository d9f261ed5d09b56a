-- ===== src/Mutations/Mints/Editions.antt =====
-- `mint_edition` and `retry_mint_edition` of api/src/mutations/mint.rs.
use hub_nfts.Prelude.{
  ℕ, ◌+◌, String, Bool, false, Option, none, some, List, [], ◌∷◌, ◌++◌, map, select, ◌==◌,
  if◌then◌else◌, find,
}
use hub_nfts.Entities.{
  Uuid, Action, Blockchain, ethereum, polygon, solana, created, pending, same_status, same_chain,
  Edition, numbered, Drop, Collection, CollectionMint, MintHistory, MetadataJson, MetadataFile,
  MetadataAttribute, CreatorRow,
}
use hub_nfts.Effects.{
  Env, Db, M, ◌>>=◌, ◌>>◌, pure, raise, lift, ok_or, fail_if, connect, query, insert, update, write,
  execute, read_clock, read_env, submit, send, cache_del, atomically, total_mints, find_by_id,
  collections_table, mints_table, mint_histories_table, metadata_jsons_table,
}
use hub_nfts.Errors.{
  Error, user_id_not_found, organization_id_not_found, balance_not_found, drop_not_found,
  collection_not_found, mint_not_found, sold_out, no_project_wallet, metadata_json_not_found,
  already_created, no_owner, blockchain_not_supported, conversion,
}
use hub_nfts.Inputs.{Headers}
use hub_nfts.Messages.{NftEventKey, drop_minted, in_progress}
use hub_nfts.Validation.{check_drop_status}
use hub_nfts.Blockchains.Solana
use hub_nfts.Blockchains.Solana.{edition}
use hub_nfts.Blockchains.Polygon
use hub_nfts.Mutations.Common.{
  drop_with_collection, drop_of_collection, minted, creators_of, to_i64, fetch_owner,
  insert_mint_creators,
}
pub mod Reserve
pub mod Writes
pub mod Outcome
pub mod Supply

-- What `mint_edition` knows when the deduction has been submitted.
pub record Reservation : Type 0 where
  pub user : Uuid
  pub drop : Drop
  pub collection : Collection
  pub edition : ℕ
  pub owner_address : String
  pub deduction : Uuid

abbrev is_sold_out : Option ℕ → ℕ → Bool
is_sold_out none total = false
is_sold_out (some supply) total = supply == total

-- The reads and checks, up to `submit_pending_deduction`.
unfoldable pub reserve_edition : Headers → Uuid → M Error Reservation
reserve_edition headers drop_id = do
  connect
  user ← ok_or headers.user_id user_id_not_found
  org ← ok_or headers.organization_id organization_id_not_found
  balance ← ok_or headers.balance balance_not_found
  found ← query (drop_with_collection drop_id)
  pair ← ok_or found drop_not_found
  collection ← ok_or pair.1 collection_not_found
  now ← read_clock
  later ← read_clock
  lift (check_drop_status pair.0 now later)
  count ← query (minted collection.id)
  total ← ok_or (to_i64 count) conversion
  fail_if (is_sold_out collection.supply total) sold_out
  owner ← fetch_owner no_project_wallet collection.project_id collection.blockchain
  deduction ← submit org user Action.mint_edition collection.blockchain balance
  pure (record {
    user = user;
    drop = pair.0;
    collection = collection;
    edition = total + 1;
    owner_address = owner;
    deduction = deduction;
  })

-- The rows that a Solana edition takes over from its collection.
abbrev copy_file : Uuid → MetadataFile → MetadataFile
copy_file id f = record f { metadata_json_id = id }

abbrev copy_attribute : Uuid → MetadataAttribute → MetadataAttribute
copy_attribute id a = record a { metadata_json_id = id }

abbrev pub copy_creator : Uuid → CreatorRow → CreatorRow
copy_creator id c = record c { of = id }

unfoldable pub insert_files : List MetadataFile → M Error (Unit {0})
insert_files [] = pure tt
insert_files (f ∷ fs) = write (λ db. record db { metadata_files = (f ∷ fs) ++ db.metadata_files })

unfoldable pub insert_attributes : List MetadataAttribute → M Error (Unit {0})
insert_attributes [] = pure tt
insert_attributes (a ∷ as') =
    write (λ db. record db { metadata_attributes = (a ∷ as') ++ db.metadata_attributes })

-- The metadata of a Solana edition: a copy of its collection's.
unfoldable pub copy_metadata : Uuid → Uuid → M Error (Unit {0})
copy_metadata collection_id mint_id = do
  found ← query (find_by_id metadata_jsons_table collection_id)
  json ← ok_or found metadata_json_not_found
  creators ← query (λ db. creators_of collection_id db.collection_creators)
  files ← query (λ db. select (λ f. f.metadata_json_id == json.id) db.metadata_files)
  attributes ← query (λ db. select (λ a. a.metadata_json_id == json.id) db.metadata_attributes)
  copy ← insert metadata_jsons_table (λ _. record json { id = mint_id })
  insert_mint_creators (map (copy_creator mint_id) creators)
  insert_files (map (copy_file copy.id) files)
  insert_attributes (map (copy_attribute copy.id) attributes)

abbrev pub pending_history : Env → Uuid → CollectionMint → String → Uuid → MintHistory
pending_history env now mint wallet id = record {
  id = id;
  mint_id = mint.id;
  wallet = env.before_save wallet;
  tx_signature = none;
  status = pending;
  created_at = now;
  collection_id = mint.collection_id;
}

abbrev pub edition_row : Env → Uuid → Reservation → String → Uuid → CollectionMint
edition_row env now r recipient id = record {
  id = id;
  collection_id = r.collection.id;
  address = none;
  owner = some (env.before_save recipient);
  creation_status = pending;
  created_by = r.user;
  created_at = now;
  signature = none;
  edition = numbered r.edition;
  seller_fee_basis_points = r.collection.seller_fee_basis_points;
  credits_deduction_id = some r.deduction;
  compressed = none;
}

abbrev copy_if_solana : Blockchain → Uuid → Uuid → M Error (Unit {0})
copy_if_solana solana collection_id mint_id = copy_metadata collection_id mint_id
copy_if_solana _ collection_id mint_id = pure tt

-- What `mint_edition` writes on its transaction.
unfoldable pub record_history :
    Reservation → Env → Uuid → CollectionMint → String → M Error (Unit {0})
record_history r env now mint recipient = do
  insert mint_histories_table (pending_history env now mint recipient)
  copy_if_solana r.collection.blockchain r.collection.id mint.id

-- The writes. The mint itself is inserted on the connection, not on the transaction.
unfoldable pub record_edition : Reservation → String → M Error CollectionMint
record_edition r recipient = do
  connect
  env ← read_env
  now ← read_clock
  mint ← insert mints_table (edition_row env now r recipient)
  atomically (record_history r env now mint recipient)
  pure mint

abbrev send_edition : Reservation → String → CollectionMint → NftEventKey → M Error (Unit {0})
send_edition r recipient mint key = elim r.collection.blockchain [
  | solana ↦ Solana.mint_drop key (
      edition (record {
        recipient_address = recipient;
        owner_address = r.owner_address;
        edition = numbered r.edition;
        collection_id = r.collection.id;
      }))
  | polygon ↦
      Polygon.mint_drop key
        (record { receiver = recipient; amount = 1; collection_id = r.collection.id })
  | ethereum ↦ raise blockchain_not_supported
]

-- What is told to the cache and the other services.
unfoldable pub announce_edition : Reservation → String → CollectionMint → M Error (Unit {0})
announce_edition r recipient mint = do
  cache_del (total_mints r.collection.id)
  let key : NftEventKey = record { id = mint.id; user_id = r.user; project_id = r.drop.project_id }
  send_edition r recipient mint key
  send (drop_minted r.drop.id in_progress) key

unfoldable pub mint_edition : Headers → Uuid → String → M Error CollectionMint
mint_edition headers drop_id recipient = do
  r ← reserve_edition headers drop_id
  mint ← record_edition r recipient
  announce_edition r recipient mint
  pure mint

-- The join of `retry_mint_edition`: mint, collection and drop.
abbrev joined_drop : CollectionMint → Db → Option Collection → Option (CollectionMint × Option Drop)
joined_drop m db none = none
joined_drop m db (some c) = elim (drop_of_collection c.id db) [
  | none ↦ none
  | some d ↦ some (m, some d)
]

abbrev mint_drop_join : Db → Option CollectionMint → Option (CollectionMint × Option Drop)
mint_drop_join db none = none
mint_drop_join db (some m) = joined_drop m db (find_by_id collections_table m.collection_id db)

abbrev pub mint_with_drop : Uuid → Db → Option (CollectionMint × Option Drop)
mint_with_drop id db = mint_drop_join db (find_by_id mints_table id db)

abbrev pub set_pending : CollectionMint → CollectionMint
set_pending m = record m { creation_status = pending }

unfoldable pub resend_edition :
    Collection → CollectionMint → String → String → NftEventKey → M Error (Unit {0})
resend_edition collection mint recipient owner key = elim collection.blockchain [
  | solana ↦ Solana.retry_mint_drop key (
      edition (record {
        recipient_address = recipient;
        owner_address = owner;
        edition = mint.edition;
        collection_id = collection.id;
      }))
  | polygon ↦
      Polygon.retry_mint_drop key
        (record { receiver = recipient; amount = 1; collection_id = collection.id })
  | ethereum ↦ raise blockchain_not_supported
]

-- The deduction of a retry is submitted, and its id is dropped.
unfoldable pub retry_mint_edition : Headers → Uuid → M Error CollectionMint
retry_mint_edition headers id = do
  user ← ok_or headers.user_id user_id_not_found
  org ← ok_or headers.organization_id organization_id_not_found
  balance ← ok_or headers.balance balance_not_found
  found ← query (mint_with_drop id)
  pair ← ok_or found mint_not_found
  let mint : CollectionMint = pair.0
  fail_if (same_status mint.creation_status created) already_created
  found_collection ← query (find_by_id collections_table mint.collection_id)
  collection ← ok_or found_collection collection_not_found
  drop ← ok_or pair.1 drop_not_found
  recipient ← ok_or mint.owner no_owner
  owner ← fetch_owner no_project_wallet drop.project_id collection.blockchain
  submit org user Action.retry_mint collection.blockchain balance
  resend_edition collection mint recipient owner
      (record { id = mint.id; user_id = user; project_id = drop.project_id })
  update mints_table mint.id set_pending
