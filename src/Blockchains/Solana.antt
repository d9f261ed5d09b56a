-- ===== src/Blockchains/Solana.antt =====
-- The events for Solana (api/src/blockchains/solana.rs): each operation chooses the variant of
-- `NftEvent` and sends it.
use hub_nfts.Entities.{DropType, edition_drop, open_drop}
use hub_nfts.Effects.{M, send}
use hub_nfts.Messages.{
  NftEventKey, MasterEdition, MintMetaplexEdition, MintMetaplexMetadata, MetaplexMetadata,
  TransferAsset, MintAndCollection, solana_create_edition_drop, solana_create_open_drop,
  solana_retry_edition_drop, solana_retry_open_drop, solana_update_edition_drop,
  solana_update_open_drop, solana_mint_edition_drop, solana_mint_open_drop,
  solana_retry_mint_edition_drop, solana_retry_mint_open_drop, solana_transfer_asset,
  solana_create_collection, solana_retry_create_collection, solana_update_collection,
  solana_mint_to_collection, solana_retry_mint_to_collection, solana_updated_collection_mint,
  solana_retry_updated_collection_mint, solana_switch_mint_collection_requested,
}

-- `MintDropTransaction`
pub data MintDropTransaction : Type 0 where
  edition : MintMetaplexEdition → MintDropTransaction
  open_mint : MintMetaplexMetadata → MintDropTransaction

module _ {E : Type 0} where
  abbrev pub create_drop : DropType → NftEventKey → MasterEdition → M E (Unit {0})
  create_drop edition_drop key payload = send (solana_create_edition_drop payload) key
  create_drop open_drop key payload = send (solana_create_open_drop payload) key

  abbrev pub retry_create_drop : DropType → NftEventKey → MasterEdition → M E (Unit {0})
  retry_create_drop edition_drop key payload = send (solana_retry_edition_drop payload) key
  retry_create_drop open_drop key payload = send (solana_retry_open_drop payload) key

  abbrev pub update_drop : DropType → NftEventKey → MasterEdition → M E (Unit {0})
  update_drop edition_drop key payload = send (solana_update_edition_drop payload) key
  update_drop open_drop key payload = send (solana_update_open_drop payload) key

  abbrev pub mint_drop : NftEventKey → MintDropTransaction → M E (Unit {0})
  mint_drop key (edition p) = send (solana_mint_edition_drop p) key
  mint_drop key (open_mint p) = send (solana_mint_open_drop p) key

  abbrev pub retry_mint_drop : NftEventKey → MintDropTransaction → M E (Unit {0})
  retry_mint_drop key (edition p) = send (solana_retry_mint_edition_drop p) key
  retry_mint_drop key (open_mint p) = send (solana_retry_mint_open_drop p) key

  abbrev pub transfer_asset : NftEventKey → TransferAsset → M E (Unit {0})
  transfer_asset key payload = send (solana_transfer_asset payload) key

  abbrev pub create_collection : NftEventKey → MasterEdition → M E (Unit {0})
  create_collection key payload = send (solana_create_collection payload) key

  abbrev pub retry_create_collection : NftEventKey → MasterEdition → M E (Unit {0})
  retry_create_collection key payload = send (solana_retry_create_collection payload) key

  abbrev pub update_collection : NftEventKey → MasterEdition → M E (Unit {0})
  update_collection key payload = send (solana_update_collection payload) key

  abbrev pub mint_to_collection : NftEventKey → MintMetaplexMetadata → M E (Unit {0})
  mint_to_collection key payload = send (solana_mint_to_collection payload) key

  abbrev pub retry_mint_to_collection : NftEventKey → MintMetaplexMetadata → M E (Unit {0})
  retry_mint_to_collection key payload = send (solana_retry_mint_to_collection payload) key

  abbrev pub retry_update_mint : NftEventKey → MintAndCollection → M E (Unit {0})
  retry_update_mint key payload = send (solana_retry_updated_collection_mint payload) key

  abbrev pub switch_collection : NftEventKey → MintAndCollection → M E (Unit {0})
  switch_collection key payload = send (solana_switch_mint_collection_requested payload) key

  abbrev pub update_collection_mint :
      NftEventKey → MetaplexMetadata → MintAndCollection → M E (Unit {0})
  update_collection_mint key metadata ids = send (solana_updated_collection_mint metadata ids) key
