-- ===== src/Blockchains/Polygon.antt =====
-- The events for Polygon (api/src/blockchains/polygon.rs). An open drop is refused by `bail!`; the
-- error that the caller makes of it is the first argument.
use hub_nfts.Prelude.{ℕ}
use hub_nfts.Entities.{DropType, edition_drop, open_drop}
use hub_nfts.Effects.{M, send, raise}
use hub_nfts.Messages.{
  NftEventKey, CreateEdition, EditionInfo, MintEdition, TransferAsset, polygon_create_drop,
  polygon_retry_drop, polygon_update_drop, polygon_mint_drop, polygon_retry_mint_drop,
  polygon_transfer_asset,
}

module _ {E : Type 0} where
  abbrev pub create_drop : E → DropType → NftEventKey → CreateEdition → M E (Unit {0})
  create_drop error edition_drop key payload = send (polygon_create_drop payload) key
  create_drop error open_drop key payload = raise error

  abbrev pub retry_create_drop : E → DropType → NftEventKey → CreateEdition → M E (Unit {0})
  retry_create_drop error edition_drop key payload = send (polygon_retry_drop payload) key
  retry_create_drop error open_drop key payload = raise error

  abbrev pub update_drop : E → DropType → NftEventKey → EditionInfo → M E (Unit {0})
  update_drop error edition_drop key payload = send (polygon_update_drop payload) key
  update_drop error open_drop key payload = raise error

  abbrev pub mint_drop : NftEventKey → MintEdition → M E (Unit {0})
  mint_drop key payload = send (polygon_mint_drop payload) key

  abbrev pub retry_mint_drop : NftEventKey → MintEdition → M E (Unit {0})
  retry_mint_drop key payload = send (polygon_retry_mint_drop payload) key

  abbrev pub transfer_asset : NftEventKey → TransferAsset → ℕ → M E (Unit {0})
  transfer_asset key payload amount = send (polygon_transfer_asset payload amount) key
