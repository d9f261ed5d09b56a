-- ===== src/Messages.antt =====
-- The events that the service sends, with the payloads that api/src/mutations, api/src/events.rs
-- and api/src/blockchains build. An id in a message is the row's id: the text form of a UUID is
-- left out.
use hub_nfts.Prelude.{ℕ, String, Option, List, Bool}
use hub_nfts.Entities.{Uuid, Edition}

pub data NftCreationStatus : Type 0 where
  in_progress completed failed queued : NftCreationStatus

pub record NftEventKey : Type 0 where
  pub id : Uuid
  pub project_id : Uuid
  pub user_id : Uuid

pub record ProtoCreator : Type 0 where
  pub address : String
  pub verified : Bool
  pub share : ℕ

pub record MasterEdition : Type 0 where
  pub owner_address : String
  pub supply : Option ℕ
  pub name : String
  pub symbol : String
  pub metadata_uri : String
  pub seller_fee_basis_points : ℕ
  pub creators : List ProtoCreator

pub record MetaplexMetadata : Type 0 where
  pub owner_address : String
  pub name : String
  pub symbol : String
  pub metadata_uri : String
  pub seller_fee_basis_points : ℕ
  pub creators : List ProtoCreator

pub record MintMetaplexEdition : Type 0 where
  pub recipient_address : String
  pub owner_address : String
  pub edition : Edition
  pub collection_id : Uuid

pub record MintMetaplexMetadata : Type 0 where
  pub metadata : MetaplexMetadata
  pub recipient_address : String
  pub compressed : Bool
  pub collection_id : Uuid

pub record EditionInfo : Type 0 where
  pub description : String
  pub image_uri : String
  pub collection : String
  pub uri : String
  pub creator : String

pub record CreateEdition : Type 0 where
  pub edition_info : Option EditionInfo
  pub amount : ℕ
  pub fee_receiver : String
  pub fee_numerator : ℕ

pub record MintEdition : Type 0 where
  pub receiver : String
  pub amount : ℕ
  pub collection_id : Uuid

pub record TransferAsset : Type 0 where
  pub recipient_address : String
  pub owner_address : String
  pub collection_mint_id : Uuid

pub record MintAndCollection : Type 0 where
  pub mint_id : Uuid
  pub collection_id : Uuid

pub record MintOpenDrop : Type 0 where
  pub recipient_address : String
  pub metadata : MetaplexMetadata
  pub mint_id : Uuid

-- The variants of `nft_events::Event` that the service sends.
pub data NftEvent : Type 0 where
  drop_created : NftCreationStatus → Uuid → NftEvent
  collection_created : NftCreationStatus → NftEvent
  drop_minted : Uuid → NftCreationStatus → NftEvent
  minted_to_collection : Uuid → NftCreationStatus → NftEvent
  started_importing_solana_collection : String → NftEvent
  solana_mint_open_drop_batched : Uuid → Bool → List MintOpenDrop → NftEvent
  solana_create_collection : MasterEdition → NftEvent
  solana_retry_create_collection : MasterEdition → NftEvent
  solana_update_collection : MasterEdition → NftEvent
  solana_create_edition_drop : MasterEdition → NftEvent
  solana_create_open_drop : MasterEdition → NftEvent
  solana_retry_edition_drop : MasterEdition → NftEvent
  solana_retry_open_drop : MasterEdition → NftEvent
  solana_update_edition_drop : MasterEdition → NftEvent
  solana_update_open_drop : MasterEdition → NftEvent
  solana_mint_edition_drop : MintMetaplexEdition → NftEvent
  solana_retry_mint_edition_drop : MintMetaplexEdition → NftEvent
  solana_mint_open_drop : MintMetaplexMetadata → NftEvent
  solana_retry_mint_open_drop : MintMetaplexMetadata → NftEvent
  solana_mint_to_collection : MintMetaplexMetadata → NftEvent
  solana_retry_mint_to_collection : MintMetaplexMetadata → NftEvent
  solana_updated_collection_mint : MetaplexMetadata → MintAndCollection → NftEvent
  solana_retry_updated_collection_mint : MintAndCollection → NftEvent
  solana_switch_mint_collection_requested : MintAndCollection → NftEvent
  solana_transfer_asset : TransferAsset → NftEvent
  polygon_create_drop : CreateEdition → NftEvent
  polygon_retry_drop : CreateEdition → NftEvent
  polygon_update_drop : EditionInfo → NftEvent
  polygon_mint_drop : MintEdition → NftEvent
  polygon_retry_mint_drop : MintEdition → NftEvent
  polygon_transfer_asset : TransferAsset → ℕ → NftEvent
