-- ===== src/Entities/Rows.antt =====
-- The rows of the tables: one record for each `Model` of api/src/entities. A UUID and a time
-- stamp are numbers; `Edition` counts from 1, and the column's default is -1.
use hub_nfts.Prelude.{ℕ, String, Option, Bool}
use hub_nfts.Entities.Enums.{Blockchain, CreationStatus, DropType}

abbrev pub Uuid : Type 0
Uuid = ℕ

abbrev pub Time : Type 0
Time = ℕ

-- The `i64` column `edition`: `unnumbered` is the default -1 of the migration.
pub data Edition : Type 0 where
  unnumbered : Edition
  numbered : ℕ → Edition

pub record Drop : Type 0 where
  pub id : Uuid
  pub project_id : Uuid
  pub collection_id : Uuid
  pub creation_status : CreationStatus
  pub start_time : Option Time
  pub end_time : Option Time
  pub price : ℕ
  pub created_by : Uuid
  pub created_at : Time
  pub paused_at : Option Time
  pub shutdown_at : Option Time
  pub credits_deduction_id : Option Uuid
  pub drop_type : DropType

pub record Collection : Type 0 where
  pub id : Uuid
  pub blockchain : Blockchain
  pub supply : Option ℕ
  pub project_id : Uuid
  pub credits_deduction_id : Option Uuid
  pub creation_status : CreationStatus
  pub address : Option String
  pub signature : Option String
  pub seller_fee_basis_points : ℕ
  pub created_by : Uuid
  pub created_at : Time

pub record CollectionMint : Type 0 where
  pub id : Uuid
  pub collection_id : Uuid
  pub address : Option String
  pub owner : Option String
  pub creation_status : CreationStatus
  pub created_by : Uuid
  pub created_at : Time
  pub signature : Option String
  pub edition : Edition
  pub seller_fee_basis_points : ℕ
  pub credits_deduction_id : Option Uuid
  pub compressed : Option Bool

pub record MintHistory : Type 0 where
  pub id : Uuid
  pub mint_id : Uuid
  pub wallet : String
  pub tx_signature : Option String
  pub status : CreationStatus
  pub created_at : Time
  pub collection_id : Uuid

pub record UpdateHistory : Type 0 where
  pub id : Uuid
  pub mint_id : Uuid
  pub txn_signature : Option String
  pub status : CreationStatus
  pub credit_deduction_id : Uuid
  pub created_by : Uuid

pub record SwitchCollectionHistory : Type 0 where
  pub id : Uuid
  pub collection_mint_id : Uuid
  pub collection_id : Uuid
  pub credit_deduction_id : Uuid
  pub signature : Option String
  pub status : CreationStatus
  pub initiated_by : Uuid

pub record TransferCharge : Type 0 where
  pub id : Uuid
  pub credits_deduction_id : Option Uuid

pub record NftTransfer : Type 0 where
  pub id : Uuid
  pub tx_signature : Option String
  pub collection_mint_id : Uuid
  pub sender : String
  pub recipient : String
  pub created_at : Time

-- `project_wallets` and, with the customer for the project, `customer_wallets`.
pub record ProjectWallet : Type 0 where
  pub id : Uuid
  pub project_id : Uuid
  pub wallet_address : String
  pub blockchain : Blockchain

pub record CustomerWallet : Type 0 where
  pub id : Uuid
  pub customer_id : Uuid
  pub address : String
  pub blockchain : Blockchain

pub record MetadataJson : Type 0 where
  pub id : Uuid
  pub identifier : Option String
  pub name : String
  pub uri : Option String
  pub symbol : String
  pub description : String
  pub image : String
  pub animation_url : Option String
  pub external_url : Option String

pub record MetadataAttribute : Type 0 where
  pub metadata_json_id : Uuid
  pub trait_type : String
  pub value : String

pub record MetadataFile : Type 0 where
  pub metadata_json_id : Uuid
  pub uri : Option String
  pub file_type : Option String

-- A row of `collection_creators` (`of` is the collection) or `mint_creators` (`of` is the mint).
pub record CreatorRow : Type 0 where
  pub of : Uuid
  pub address : String
  pub verified : Bool
  pub share : ℕ
