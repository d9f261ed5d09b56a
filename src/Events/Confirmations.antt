-- ===== src/Events/Confirmations.antt =====
-- Which deductions the processing of a message confirms.
mod Steps
mod Handlers
mod Imports
pub use Steps.*
pub use Handlers.*
pub use Imports.*
use mathlib.Core.Option.{some-injective}
use hub_nfts.Prelude.{
  ◌≡◌, inl, inr, refl, sym, ap, ◌∙◌, subst, String, Bool, Option, some, List, [], ◌∷◌, find,
  Option-cases,
}
use hub_nfts.Entities.{
  Uuid, Drop, Collection, CollectionMint, UpdateHistory, SwitchCollectionHistory, TransferCharge,
  Time,
}
use hub_nfts.Effects.{
  Env, Db, World, Wp, Result, each, find_by_id, collections_table, weaken, by_then, ok_or_then,
  read_env_then, query_then, confirm_then, send_then, update_then, insert_then, lift_then,
  read_clock_then, connect_then, atomically_then, pure_end, part_then, Deduction,
}
use hub_nfts.Mutations.Common.{mint_with_collection-found, drop_of_collection}
use hub_nfts.Events.Results.{
  ProcessorError, MintResult, SignedResult, ProtoBlockchain, mint_result, transfer_result,
}
use hub_nfts.Events.Creation.{
  Process, confirm_success, drop_created_handler, collection_created_handler, drop_minted_handler,
  minted_to_collection_handler, collection_with_drop,
}
use hub_nfts.Events.Histories.{
  mint_transferred, mint_updated, switch_collection_submitted, move_mint, confirm_signed,
  confirm_transfer,
}
use hub_nfts.Events.Ownership.{
  OwnershipUpdate, project_wallet_created, customer_wallet_created, update_mint_owner,
  update_polygon_mints_owner, hand_over,
}
use hub_nfts.Events.Dispatch.{
  Message, TreasuryEvent, SolanaEvent, process, process_treasury, process_solana, treasury,
  polygon_owners, polygon_other,
}

treasury-Confirms :
    (id : String) (w : World) (e : TreasuryEvent)
    → Wp (Changes (IsCharged w.db) w) (process_treasury id e) w
treasury-Confirms id w (TreasuryEvent.project_wallet p a c) = project_wallet-Confirms p w a c
treasury-Confirms id w (TreasuryEvent.customer_wallet p a c) = customer_wallet-Confirms p w a c
treasury-Confirms id w (TreasuryEvent.create_drop_submitted p) =
    drop_created-Confirms id w (mint_result p)
treasury-Confirms id w (TreasuryEvent.retry_create_drop_submitted p) =
    drop_created-Confirms id w (mint_result p)
treasury-Confirms id w (TreasuryEvent.mint_drop_submitted p) =
    drop_minted-Confirms id w (mint_result p)
treasury-Confirms id w (TreasuryEvent.retry_mint_drop_submitted p) =
    drop_minted-Confirms id w (mint_result p)
treasury-Confirms id w (TreasuryEvent.transfer_asset_submitted p) =
    mint_transferred-Confirms id w (transfer_result p)
treasury-Confirms id w TreasuryEvent.other = pure_end _ (idle (IsCharged w.db) w)

solana-Confirms :
    (id : String) (w : World) (e : SolanaEvent)
    → Wp (Changes (IsCharged w.db) w) (process_solana id e) w
solana-Confirms id w (SolanaEvent.create_edition_drop_submitted _ s a) =
    drop_created-Confirms id w (MintResult.success s a)
solana-Confirms id w (SolanaEvent.create_open_drop_submitted _ s a) =
    drop_created-Confirms id w (MintResult.success s a)
solana-Confirms id w (SolanaEvent.create_collection_submitted _ s a) =
    collection_created-Confirms id w (MintResult.success s a)
solana-Confirms id w (SolanaEvent.mint_edition_drop_submitted _ s a) =
    drop_minted-Confirms id w (MintResult.success s a)
solana-Confirms id w (SolanaEvent.mint_open_drop_submitted _ s a) =
    drop_minted-Confirms id w (MintResult.success s a)
solana-Confirms id w (SolanaEvent.mint_to_collection_submitted _ s a) =
    minted_to_collection-Confirms id w (MintResult.success s a)
solana-Confirms id w (SolanaEvent.update_mint_submitted _ s) =
    mint_updated-Confirms id w (SignedResult.success s)
solana-Confirms id w (SolanaEvent.transfer_asset_submitted s) =
    mint_transferred-Confirms id w (SignedResult.success s)
solana-Confirms id w (SolanaEvent.switch_mint_collection_submitted s) =
    switch_submitted-Confirms id w (SignedResult.success s)
solana-Confirms id w (SolanaEvent.create_edition_drop_failed _) =
    drop_created-Confirms id w MintResult.failure
solana-Confirms id w (SolanaEvent.create_open_drop_failed _) =
    drop_created-Confirms id w MintResult.failure
solana-Confirms id w (SolanaEvent.create_collection_failed _) =
    collection_created-Confirms id w MintResult.failure
solana-Confirms id w (SolanaEvent.mint_edition_drop_failed _) =
    drop_minted-Confirms id w MintResult.failure
solana-Confirms id w (SolanaEvent.mint_to_collection_failed _) =
    minted_to_collection-Confirms id w MintResult.failure
solana-Confirms id w (SolanaEvent.update_mint_failed _) =
    mint_updated-Confirms id w SignedResult.failure
solana-Confirms id w SolanaEvent.mint_open_drop_failed =
    drop_minted-Confirms id w MintResult.failure
solana-Confirms id w SolanaEvent.transfer_asset_failed =
    mint_transferred-Confirms id w SignedResult.failure
solana-Confirms id w SolanaEvent.switch_mint_collection_failed =
    switch_submitted-Confirms id w SignedResult.failure
solana-Confirms id w (SolanaEvent.update_owner a b c) = update_mint_owner-Confirms id w a b c
solana-Confirms id w (SolanaEvent.imported_external_collection project user p) =
    index_collection-Confirms id project user p w
solana-Confirms id w (SolanaEvent.imported_external_mint user p) = index_mint-Confirms id user p w
solana-Confirms id w SolanaEvent.other = pure_end _ (idle (IsCharged w.db) w)

-- Whatever becomes of a message, its processing submits no deduction
-- and confirms at most one, which is the deduction of a row of the tables before it.
pub process-Confirms :
    (message : Message) (w : World) → Wp (Changes (IsCharged w.db) w) (process message) w
unfolding process
process-Confirms (treasury id e) w = treasury-Confirms id w e
process-Confirms (Message.solana id e) w = solana-Confirms id w e
process-Confirms (polygon_owners p) w = polygon_owners-Confirms p w
process-Confirms polygon_other w = pure_end _ (idle (IsCharged w.db) w)
