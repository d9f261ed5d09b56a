-- ===== src/Events/Dispatch.antt =====
-- `Processor::process` of api/src/events.rs: which handler a message goes to.
use hub_nfts.Prelude.{String}
use hub_nfts.Effects.{pure}
use hub_nfts.Events.Results.{
  MintResult, SignedResult, PolygonTransactionResult, ProtoBlockchain, mint_result, transfer_result,
}
use hub_nfts.Events.Creation.{
  Process, drop_created_handler, collection_created_handler, drop_minted_handler,
  minted_to_collection_handler,
}
use hub_nfts.Events.Imports.{
  SolanaCollectionPayload, SolanaMintPayload, index_collection, index_mint,
}
use hub_nfts.Events.Histories.{mint_transferred, mint_updated, switch_collection_submitted}
use hub_nfts.Events.Ownership.{
  OwnershipUpdate, project_wallet_created, customer_wallet_created, update_mint_owner,
  update_polygon_mints_owner,
}

-- The variants of `TreasuryEvent` that are handled; `other` is any other, and none at all.
pub data TreasuryEvent : Type 0 where
  project_wallet customer_wallet : String → String → ProtoBlockchain → TreasuryEvent
  create_drop_submitted retry_create_drop_submitted : PolygonTransactionResult → TreasuryEvent
  mint_drop_submitted retry_mint_drop_submitted : PolygonTransactionResult → TreasuryEvent
  transfer_asset_submitted : PolygonTransactionResult → TreasuryEvent
  other : TreasuryEvent

-- The pairs of a first try and a retry, which go to the same handler.
pub data Attempt : Type 0 where
  first_try retry : Attempt

-- The variants of `SolanaNftsEvent` that are handled. A submitted transaction carries its signature
-- and address. An import carries the project and the user of its key, a mint the user alone.
pub data SolanaEvent : Type 0 where
  create_edition_drop_submitted create_open_drop_submitted : Attempt → String → String → SolanaEvent
  create_collection_submitted : Attempt → String → String → SolanaEvent
  mint_edition_drop_submitted mint_open_drop_submitted : Attempt → String → String → SolanaEvent
  mint_to_collection_submitted : Attempt → String → String → SolanaEvent
  update_mint_submitted : Attempt → String → SolanaEvent
  transfer_asset_submitted switch_mint_collection_submitted : String → SolanaEvent
  create_edition_drop_failed create_open_drop_failed create_collection_failed :
      Attempt → SolanaEvent
  mint_edition_drop_failed mint_to_collection_failed update_mint_failed : Attempt → SolanaEvent
  mint_open_drop_failed transfer_asset_failed switch_mint_collection_failed : SolanaEvent
  update_owner : String → String → String → SolanaEvent
  imported_external_collection : String → String → SolanaCollectionPayload → SolanaEvent
  imported_external_mint : String → SolanaMintPayload → SolanaEvent
  other : SolanaEvent

pub data Message : Type 0 where
  treasury : String → TreasuryEvent → Message
  solana : String → SolanaEvent → Message
  polygon_owners : OwnershipUpdate → Message
  polygon_other : Message

abbrev pub process_treasury : String → TreasuryEvent → Process
process_treasury id (TreasuryEvent.project_wallet project address chain) =
    project_wallet_created project address chain
process_treasury id (TreasuryEvent.customer_wallet customer address chain) =
    customer_wallet_created customer address chain
process_treasury id (TreasuryEvent.create_drop_submitted p) =
    drop_created_handler id (mint_result p)
process_treasury id (TreasuryEvent.retry_create_drop_submitted p) =
    drop_created_handler id (mint_result p)
process_treasury id (TreasuryEvent.mint_drop_submitted p) = drop_minted_handler id (mint_result p)
process_treasury id (TreasuryEvent.retry_mint_drop_submitted p) =
    drop_minted_handler id (mint_result p)
process_treasury id (TreasuryEvent.transfer_asset_submitted p) =
    mint_transferred id (transfer_result p)
process_treasury id TreasuryEvent.other = pure tt

abbrev pub process_solana : String → SolanaEvent → Process
process_solana id (SolanaEvent.create_edition_drop_submitted _ s a) =
    drop_created_handler id (MintResult.success s a)
process_solana id (SolanaEvent.create_open_drop_submitted _ s a) =
    drop_created_handler id (MintResult.success s a)
process_solana id (SolanaEvent.create_collection_submitted _ s a) =
    collection_created_handler id (MintResult.success s a)
process_solana id (SolanaEvent.mint_edition_drop_submitted _ s a) =
    drop_minted_handler id (MintResult.success s a)
process_solana id (SolanaEvent.mint_open_drop_submitted _ s a) =
    drop_minted_handler id (MintResult.success s a)
process_solana id (SolanaEvent.mint_to_collection_submitted _ s a) =
    minted_to_collection_handler id (MintResult.success s a)
process_solana id (SolanaEvent.update_mint_submitted _ s) = mint_updated id (SignedResult.success s)
process_solana id (SolanaEvent.transfer_asset_submitted s) =
    mint_transferred id (SignedResult.success s)
process_solana id (SolanaEvent.switch_mint_collection_submitted s) =
    switch_collection_submitted id (SignedResult.success s)
process_solana id (SolanaEvent.create_edition_drop_failed _) =
    drop_created_handler id MintResult.failure
process_solana id (SolanaEvent.create_open_drop_failed _) =
    drop_created_handler id MintResult.failure
process_solana id (SolanaEvent.create_collection_failed _) =
    collection_created_handler id MintResult.failure
process_solana id (SolanaEvent.mint_edition_drop_failed _) =
    drop_minted_handler id MintResult.failure
process_solana id (SolanaEvent.mint_to_collection_failed _) =
    minted_to_collection_handler id MintResult.failure
process_solana id (SolanaEvent.update_mint_failed _) = mint_updated id SignedResult.failure
process_solana id SolanaEvent.mint_open_drop_failed = drop_minted_handler id MintResult.failure
process_solana id SolanaEvent.transfer_asset_failed = mint_transferred id SignedResult.failure
process_solana id SolanaEvent.switch_mint_collection_failed =
    switch_collection_submitted id SignedResult.failure
process_solana id (SolanaEvent.update_owner sender recipient signature) =
    update_mint_owner id sender recipient signature
process_solana id (SolanaEvent.imported_external_collection project user p) =
    index_collection id project user p
process_solana id (SolanaEvent.imported_external_mint user p) = index_mint id user p
process_solana id SolanaEvent.other = pure tt

unfoldable pub process : Message → Process
process (treasury id e) = process_treasury id e
process (solana id e) = process_solana id e
process (polygon_owners p) = update_polygon_mints_owner p
process polygon_other = pure tt
