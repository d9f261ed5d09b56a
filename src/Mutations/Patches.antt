-- ===== src/Mutations/Patches.antt =====
-- What `patch_drop` of api/src/mutations/drop.rs and `patch_collection` of
-- api/src/mutations/collection.rs share: the checks, and the writes of creators and metadata.
pub mod OfDrop
pub mod OfCollection
pub mod Patched
use hub_nfts.Prelude.{String, false, not, Option, none, some, List, ◌==◌, select, get_or, map}
use hub_nfts.Entities.{Uuid, Blockchain}
use hub_nfts.Effects.{◌>>=◌, ◌>>◌, Env, Db, M, ok, ◌&>◌, pure, write, enqueue}
use hub_nfts.Errors.{Error}
use hub_nfts.Inputs.{Creator, MetadataJsonInput, Caller}
use hub_nfts.Messages.{ProtoCreator}
use hub_nfts.Validation.{Check, validate_creators, validate_json}
use hub_nfts.Blockchains.Solana
use hub_nfts.Blockchains.Polygon
use hub_nfts.Mutations.Common.{creator_row, insert_collection_creators, save_metadata}
use hub_nfts.Mutations.Mints.ToCollection.{verified_on}

-- The checks of what the request gives.
abbrev pub check_creators : Env → Blockchain → String → Option (List Creator) → Check
check_creators env chain owner none = ok tt
check_creators env chain owner (some creators) =
    validate_creators env chain creators &> verified_on chain owner creators

abbrev pub check_json : Env → Blockchain → Option MetadataJsonInput → Check
check_json env chain none = ok tt
check_json env chain (some json) = validate_json env chain json

-- `impl TryFrom<Creator> for proto::Creator`
abbrev pub request_creator : Creator → ProtoCreator
request_creator c = record {
  address = c.address;
  verified = get_or false c.verified;
  share = c.share;
}

unfoldable pub clear_collection_creators : Uuid → Db → Db
clear_collection_creators id db = record db {
  collection_creators = select (λ c. not (c.of == id)) db.collection_creators;
}

unfoldable pub replace_creators :
    Uuid → Option (List Creator) → List ProtoCreator → M Error (List ProtoCreator)
replace_creators id none current = pure current
replace_creators id (some creators) current = do
  write (clear_collection_creators id)
  insert_collection_creators (map (creator_row id) creators)
  pure (map request_creator creators)

-- `metadata_json_model.delete`, with the attributes and files that cascade.
unfoldable pub delete_metadata : Uuid → Db → Db
delete_metadata id db = record db {
  metadata_jsons = select (λ r. not (r.id == id)) db.metadata_jsons;
  metadata_attributes = select (λ a. not (a.metadata_json_id == id)) db.metadata_attributes;
  metadata_files = select (λ f. not (f.metadata_json_id == id)) db.metadata_files;
}

unfoldable pub replace_metadata : Uuid → MetadataJsonInput → Caller → M Error (Unit {0})
replace_metadata id json caller = do
  write (delete_metadata id)
  save_metadata id json
  enqueue (record { metadata_json = json; caller = caller })
