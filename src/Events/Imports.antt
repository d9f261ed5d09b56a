-- ===== src/Events/Imports.antt =====
-- The import of a collection and of its mints: `index_collection` and `index_mint` of
-- api/src/events.rs. The writes are not in a transaction.
use hub_nfts.Prelude.{
  ℕ, String, Bool, Option, none, some, List, ltb, if◌then◌else◌, is_some, get_or,
}
use hub_nfts.Entities.{
  Uuid, Time, solana, created, unnumbered, Collection, CollectionMint, MetadataJson, CreatorRow,
}
use hub_nfts.Effects.{
  Env, Db, ◌>>=◌, ◌>>◌, ok_or, insert, insert_row, execute, write, read_env, read_clock, each,
  find_by_id, collections_table, mints_table, metadata_jsons_table,
}
use hub_nfts.Inputs.{Attribute}
use hub_nfts.Messages.{ProtoCreator}
use hub_nfts.Mutations.Common.{
  to_i16, insert_attribute, insert_file, insert_collection_creator, insert_mint_creator,
}
use hub_nfts.Events.Results.{
  missing_collection_metadata, invalid_seller_fee, invalid_creator_share, invalid_uuid,
}
use hub_nfts.Events.Creation.{Process}

-- `Metadata` and `File` of the messages.
pub record ImportedMetadata : Type 0 where
  pub name : String
  pub description : Option String
  pub symbol : String
  pub attributes : List Attribute
  pub uri : String
  pub image : String

pub record ImportedFile : Type 0 where
  pub uri : String
  pub mime : Option String

pub record SolanaCollectionPayload : Type 0 where
  pub supply : Option ℕ
  pub mint_address : String
  pub seller_fee_basis_points : ℕ
  pub creators : List ProtoCreator
  pub metadata : Option ImportedMetadata
  pub files : List ImportedFile

pub record SolanaMintPayload : Type 0 where
  pub collection_id : String
  pub mint_address : String
  pub owner : String
  pub seller_fee_basis_points : ℕ
  pub compressed : Bool
  pub creators : List ProtoCreator
  pub metadata : Option ImportedMetadata
  pub files : List ImportedFile

-- `i32::try_from`
abbrev pub to_i32 : ℕ → Option ℕ
to_i32 n = if ltb n 2147483648 then some n else none

abbrev pub imported_collection :
    Env → SolanaCollectionPayload → Time → Uuid → Uuid → ℕ → Uuid → Collection
imported_collection env payload now id project fee user = record {
  id = id;
  blockchain = solana;
  supply = payload.supply;
  project_id = project;
  credits_deduction_id = none;
  creation_status = created;
  address = some (env.before_save payload.mint_address);
  signature = none;
  seller_fee_basis_points = fee;
  created_by = user;
  created_at = now;
}

abbrev pub imported_mint : Env → SolanaMintPayload → Time → Uuid → Uuid → ℕ → Uuid → CollectionMint
imported_mint env payload now id collection fee user = record {
  id = id;
  collection_id = collection;
  address = some (env.before_save payload.mint_address);
  owner = some (env.before_save payload.owner);
  creation_status = created;
  created_by = user;
  created_at = now;
  signature = none;
  edition = unnumbered;
  seller_fee_basis_points = fee;
  credits_deduction_id = none;
  compressed = some payload.compressed;
}

abbrev pub imported_json : ImportedMetadata → Uuid → MetadataJson
imported_json metadata id = record {
  id = id;
  identifier = some "";
  name = metadata.name;
  uri = some metadata.uri;
  symbol = metadata.symbol;
  description = get_or "" metadata.description;
  image = metadata.image;
  animation_url = none;
  external_url = none;
}

-- The row of a creator of a message.
abbrev pub imported_creator : Uuid → ProtoCreator → ℕ → CreatorRow
imported_creator of c share = record {
  of = of;
  address = c.address;
  verified = c.verified;
  share = share;
}

unfoldable pub index_collection_creator : Env → Uuid → ProtoCreator → Process
index_collection_creator env id c = ok_or (to_i32 c.share) invalid_creator_share >>= λ share.
    insert_collection_creator env (imported_creator id c share)

unfoldable pub index_mint_creator : Env → Uuid → ProtoCreator → Process
index_mint_creator env id c = ok_or (to_i32 c.share) invalid_creator_share >>= λ share.
    insert_mint_creator env (imported_creator id c share)

unfoldable pub index_attributes : Uuid → List Attribute → Process
index_attributes id attributes = each (λ a. write (insert_attribute id a)) attributes

unfoldable pub index_files : Uuid → List ImportedFile → Process
index_files id files =
    each (λ f. write (insert_file id (record { uri = some f.uri; file_type = f.mime }))) files

unfoldable pub index_collection : String → String → String → SolanaCollectionPayload → Process
index_collection id project_id created_by payload = do
  env ← read_env
  metadata ← ok_or payload.metadata missing_collection_metadata
  collection_id ← ok_or (env.parse_uuid id) invalid_uuid
  project ← ok_or (env.parse_uuid project_id) invalid_uuid
  fee ← ok_or (to_i16 payload.seller_fee_basis_points) invalid_seller_fee
  user ← ok_or (env.parse_uuid created_by) invalid_uuid
  now ← read_clock
  insert collections_table (λ _. imported_collection env payload now collection_id project fee user)
  json ← insert metadata_jsons_table (λ _. imported_json metadata collection_id)
  each (index_collection_creator env collection_id) payload.creators
  index_attributes json.id metadata.attributes
  index_files json.id payload.files

-- A mint of a collection that is not there is refused by the foreign key.
abbrev pub with_mint : CollectionMint → Option Db → Option (CollectionMint × Db)
with_mint m none = none
with_mint m (some db) = some (m, db)

unfoldable pub insert_mint_row : CollectionMint → Db → Option (CollectionMint × Db)
unfolding insert_row
insert_mint_row m db =
    if is_some (find_by_id collections_table m.collection_id db)
    then with_mint m (insert_row mints_table m db)
    else none

unfoldable pub index_mint : String → String → SolanaMintPayload → Process
index_mint id created_by payload = do
  env ← read_env
  metadata ← ok_or payload.metadata missing_collection_metadata
  mint_id ← ok_or (env.parse_uuid id) invalid_uuid
  collection ← ok_or (env.parse_uuid payload.collection_id) invalid_uuid
  user ← ok_or (env.parse_uuid created_by) invalid_uuid
  now ← read_clock
  fee ← ok_or (to_i16 payload.seller_fee_basis_points) invalid_seller_fee
  mint ← execute (insert_mint_row (imported_mint env payload now mint_id collection fee user))
  json ← insert metadata_jsons_table (λ _. imported_json metadata mint_id)
  each (index_mint_creator env mint.id) payload.creators
  index_attributes json.id metadata.attributes
  index_files json.id payload.files
