-- ===== src/Events/Results.antt =====
-- The results and errors of api/src/events.rs, and their conversions.
use Prim.Native.String.{◌++◌ as ◌<>◌}
use hub_nfts.Prelude.{String, Option, none, some}
use hub_nfts.Entities.{Blockchain}
use hub_nfts.Effects.{Result, ok, err}

-- `ProcessorErrorKind`, without the errors of services.
pub data ProcessorError : Type 0 where
  invalid_timestamp invalid_blockchain invalid_transaction_status : ProcessorError
  missing_collection_metadata invalid_seller_fee invalid_creator_share invalid_uuid : ProcessorError
  db_missing_collection db_missing_collection_mint db_missing_drop : ProcessorError
  db_missing_mint_history db_missing_transfer_charge db_missing_update_history : ProcessorError
  db_missing_switch_collection_history record_missing_deduction_id : ProcessorError
  record_missing_owner : ProcessorError

pub data MintResult : Type 0 where
  success : String → String → MintResult
  failure : MintResult

-- `TransferResult`, `UpdateResult` and `SwitchCollectionResult` have the same shape.
pub data SignedResult : Type 0 where
  success : String → SignedResult
  failure : SignedResult

-- `PolygonTransactionResult`
pub record PolygonTransactionResult : Type 0 where
  pub hash : Option String
  pub contract_address : String
  pub edition_id : String

-- `impl From<PolygonTransactionResult> for MintResult`
abbrev polygon_address : PolygonTransactionResult → String
polygon_address i = i.contract_address <> ":" <> i.edition_id

abbrev pub mint_result : PolygonTransactionResult → MintResult
mint_result i = elim i.hash [
  | none ↦ MintResult.failure
  | some signature ↦ MintResult.success signature (polygon_address i)
]

-- `impl From<PolygonTransactionResult> for TransferResult`
abbrev pub transfer_result : PolygonTransactionResult → SignedResult
transfer_result i = elim i.hash [
  | none ↦ SignedResult.failure
  | some signature ↦ SignedResult.success signature
]

-- `treasury_events::Blockchain`
pub data ProtoBlockchain : Type 0 where
  unspecified solana polygon ethereum : ProtoBlockchain

-- `impl TryFrom<ProtoBlockchainEnum> for Blockchain`
abbrev pub to_blockchain : ProtoBlockchain → Result ProcessorError Blockchain
to_blockchain ProtoBlockchain.unspecified = err invalid_blockchain
to_blockchain ProtoBlockchain.solana = ok Blockchain.solana
to_blockchain ProtoBlockchain.polygon = ok Blockchain.polygon
to_blockchain ProtoBlockchain.ethereum = ok Blockchain.ethereum
