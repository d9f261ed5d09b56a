-- ===== src/Inputs.antt =====
-- What a request carries: the GraphQL input objects of api/src/objects (`Creator`,
-- `MetadataJsonInput`), the headers of api/src/lib.rs, and the upload tasks of
-- api/src/background_worker/tasks/metadata_json_upload_task.rs.
use hub_nfts.Prelude.{some, none, ℕ, String, Option, List, Bool}
use hub_nfts.Entities.{Uuid}

-- `share` is a `u8`.
pub record Creator : Type 0 where
  pub address : String
  pub verified : Option Bool
  pub share : ℕ

pub record File : Type 0 where
  pub uri : Option String
  pub file_type : Option String

pub record Attribute : Type 0 where
  pub trait_type : String
  pub value : String

pub record Property : Type 0 where
  pub files : Option (List File)
  pub category : Option String

-- `Collection` of the metadata.
pub record MetadataCollection : Type 0 where
  pub name : Option String
  pub family : Option String

pub record MetadataJsonInput : Type 0 where
  pub name : String
  pub symbol : String
  pub description : String
  pub image : String
  pub animation_url : Option String
  pub collection : Option MetadataCollection
  pub attributes : List Attribute
  pub external_url : Option String
  pub properties : Option Property

-- `properties.unwrap_or_default().files`
abbrev pub property_files : Option Property → Option (List File)
property_files none = none
property_files (some p) = p.files

-- The headers X-USER-ID, X-ORGANIZATION-ID and X-CREDIT-BALANCE.
pub record Headers : Type 0 where
  pub user_id : Option Uuid
  pub organization_id : Option Uuid
  pub balance : Option ℕ

-- What is to be done once the metadata is uploaded.
pub data Caller : Type 0 where
  create_drop : Uuid → Caller
  patch_drop : Uuid → Uuid → Caller
  mint_to_collection : Uuid → Caller
  create_collection : Uuid → Caller
  patch_collection : Uuid → Uuid → Caller
  queue_mint_to_drop : Uuid → Uuid → Caller
  update_mint : Uuid → Caller

pub record MetadataJsonUploadTask : Type 0 where
  pub metadata_json : MetadataJsonInput
  pub caller : Caller
