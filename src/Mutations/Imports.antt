-- ===== src/Mutations/Imports.antt =====
-- `import_solana_collection` of api/src/mutations/collection.rs, with the rows that the foreign keys
-- of migration/src delete along with a collection.
pub mod Deletes
pub mod Removed
use hub_nfts.Prelude.{
  String, Bool, not, ◌&&◌, ◌||◌, Option, none, some, List, ◌==◌, find, select, is_some,
}
use hub_nfts.Entities.{Uuid, pending, CreationStatus, Collection, CollectionMint, MetadataJson}
use hub_nfts.Effects.{
  ◌>>=◌, ◌>>◌, Db, M, pure, lift, ok_or, connect, query, write, each, read_env, new_uuid, send,
  atomically, find_by_id, metadata_jsons_table,
}
use hub_nfts.Errors.{Error, user_id_not_found}
use hub_nfts.Inputs.{Headers}
use hub_nfts.Messages.{started_importing_solana_collection}
use hub_nfts.Validation.{validate_solana_address}
use hub_nfts.Mutations.Collections.{has_address}
use hub_nfts.Mutations.Patches.{delete_metadata}

pub record ImportCollectionInput : Type 0 where
  pub project : Uuid
  pub collection : String

-- A mint of this collection.
abbrev pub is_mint_of : Uuid → Db → Uuid → Bool
is_mint_of collection db id =
    is_some (find (λ m. m.id == id && m.collection_id == collection) db.mints)

-- `collection.delete`, and what cascades: its drops, creators, mints and mint histories, and the
-- histories, creators and transfers of its mints.
unfoldable pub delete_collection : Uuid → Db → Db
delete_collection id db = record db {
  collections = select (λ c. not (c.id == id)) db.collections;
  drops = select (λ d. not (d.collection_id == id)) db.drops;
  mints = select (λ m. not (m.collection_id == id)) db.mints;
  collection_creators = select (λ c. not (c.of == id)) db.collection_creators;
  mint_histories =
      select (λ h. not (h.collection_id == id || is_mint_of id db h.mint_id)) db.mint_histories;
  update_histories = select (λ h. not (is_mint_of id db h.mint_id)) db.update_histories;
  mint_creators = select (λ c. not (is_mint_of id db c.of)) db.mint_creators;
  nft_transfers = select (λ t. not (is_mint_of id db t.collection_mint_id)) db.nft_transfers;
}

unfoldable pub delete_json : Option MetadataJson → M Error (Unit {0})
delete_json none = pure tt
delete_json (some json) = write (delete_metadata json.id)

abbrev pub is_among : List CollectionMint → MetadataJson → Bool
is_among mints json = is_some (find (λ m. m.id == json.id) mints)

-- The transaction that removes a collection.
unfoldable pub remove_collection : Uuid → M Error (Unit {0})
remove_collection id = do
  mints ← query (λ db. select (λ m. m.collection_id == id) db.mints)
  found_json ← query (find_by_id metadata_jsons_table id)
  delete_json found_json
  jsons ← query (λ db. select (is_among mints) db.metadata_jsons)
  each (λ json. write (delete_metadata json.id)) jsons
  write (delete_collection id)

unfoldable pub remove_found : Option Collection → M Error (Unit {0})
remove_found none = pure tt
remove_found (some collection) = do connect; atomically (remove_collection collection.id)

abbrev pub import_key : Option Collection → Uuid → Uuid
import_key none fresh = fresh
import_key (some collection) fresh = collection.id

abbrev pub imported_before : ImportCollectionInput → Db → Option Collection
imported_before input db =
    find (λ c. has_address input.collection c && c.project_id == input.project) db.collections

unfoldable pub import_solana_collection : Headers → ImportCollectionInput → M Error CreationStatus
import_solana_collection headers input = do
  user ← ok_or headers.user_id user_id_not_found
  env ← read_env
  lift (validate_solana_address env input.collection)
  found ← query (imported_before input)
  remove_found found
  fresh ← new_uuid
  send (started_importing_solana_collection input.collection)
      (record { id = import_key found fresh; project_id = input.project; user_id = user })
  pure pending
