-- ===== src/Effects/State.antt =====
-- The state that handlers read and write.
use hub_nfts.Prelude.{ℕ, String, Option, List, Bool}
use hub_nfts.Entities.{
  Uuid, Time, Action, Blockchain, Drop, Collection, CollectionMint, MintHistory, UpdateHistory,
  SwitchCollectionHistory, TransferCharge, NftTransfer, ProjectWallet, CustomerWallet, MetadataJson,
  MetadataAttribute, MetadataFile, CreatorRow,
}
use hub_nfts.Inputs.{MetadataJsonUploadTask, MetadataJsonInput}
use hub_nfts.Messages.{NftEvent, NftEventKey}

-- `UploadResponse` of api/src/hub_uploads.rs.
pub record UploadResponse : Type 0 where
  pub uri : String
  pub cid : String

-- What the code takes from outside the repository. The first four say what happens at the n-th
-- call of a service: whether it fails, the time, the id that the database or the credits service
-- gives out, and a stream of random numbers. The others are library functions: `ValidateAddress`, `Url`,
-- `Uuid::from_str`, the `before_save_evm_addrs!` hook and `to_lowercase`; `upload` is what the
-- upload service answers, a URI and a content id.
pub record Env : Type 0 where
  pub fails : ℕ → Bool
  pub clock : ℕ → Time
  pub fresh : ℕ → Uuid
  pub random : ℕ → ℕ → ℕ
  pub is_solana_address : String → Bool
  pub is_evm_address : String → Bool
  pub is_url : String → Bool
  pub parse_uuid : String → Option Uuid
  pub before_save : String → String
  pub to_lowercase : String → String
  pub upload : MetadataJsonInput → UploadResponse

-- The tables.
pub record Db : Type 0 where
  pub drops : List Drop
  pub collections : List Collection
  pub mints : List CollectionMint
  pub mint_histories : List MintHistory
  pub update_histories : List UpdateHistory
  pub switch_histories : List SwitchCollectionHistory
  pub transfer_charges : List TransferCharge
  pub nft_transfers : List NftTransfer
  pub project_wallets : List ProjectWallet
  pub customer_wallets : List CustomerWallet
  pub metadata_jsons : List MetadataJson
  pub metadata_attributes : List MetadataAttribute
  pub metadata_files : List MetadataFile
  pub collection_creators : List CreatorRow
  pub mint_creators : List CreatorRow

-- A pending deduction that was submitted to the credits service.
pub record Deduction : Type 0 where
  pub id : Uuid
  pub organization : Uuid
  pub user : Uuid
  pub action : Action
  pub blockchain : Blockchain
  pub balance : ℕ

-- The keys `collection:{id}:total_mints` and `collection:{id}:supply` of the cache.
pub data CacheKey : Type 0 where
  total_mints supply : Uuid → CacheKey

-- The states of a job that the code writes as texts.
pub data JobStatus : Type 0 where
  queued processing completed failed : JobStatus

pub record JobTracking : Type 0 where
  pub id : ℕ
  pub payload : MetadataJsonUploadTask
  pub status : JobStatus

pub record Job : Type 0 where
  pub id : ℕ
  pub task : MetadataJsonUploadTask

-- The table `job_trackings`, with the next number of its key, and the list `job_queue` of the
-- cache server, its head first.
pub record JobStore : Type 0 where
  pub trackings : List JobTracking
  pub next_id : ℕ
  pub waiting : List Job

-- `sent`, `submitted` and `confirmed` are newest first; `calls` counts the calls of services.
pub record World : Type 0 where
  pub env : Env
  pub db : Db
  pub cache : List (CacheKey × ℕ)
  pub jobs : JobStore
  pub sent : List (NftEvent × NftEventKey)
  pub submitted : List Deduction
  pub confirmed : List Uuid
  pub calls : ℕ
