-- ===== src/Background/Uploads/Sends.antt =====
-- The events at the end of the tasks: each branch sends one event with the URI that was stored, or
-- raises.
use hub_nfts.Prelude.{refl, String, List, ◌≡◌}
use hub_nfts.Entities.{
  Uuid, Blockchain, solana, polygon, ethereum, DropType, edition_drop, open_drop, Drop, Collection,
  CollectionMint, UpdateHistory, MetadataJson, CreatorRow,
}
use hub_nfts.Messages.{NftEventKey, MasterEdition, CreateEdition, EditionInfo}
use hub_nfts.Effects.{World, Wp, ok_or_then}
use hub_nfts.Blockchains.Solana
use hub_nfts.Blockchains.Polygon
use hub_nfts.Background.Errors.{hub_core}
use hub_nfts.Background.Tasks.{
  send_create_drop, send_mint_to_collection, send_create_collection, send_update_mint,
}
use hub_nfts.Background.Process.{send_patch_collection, send_patch_drop}
use hub_nfts.Background.Uploads.{Sending, info_uri}
use hub_nfts.Background.Uploads.Steps.{send-Sending, raise-Sending}
use hub_nfts.Prelude.{some}

create_drop-Sending :
    (d : DropType) (key : NftEventKey) (payload : MasterEdition) (w : World)
    → Wp (Sending payload.metadata_uri w) (Solana.create_drop d key payload) w
create_drop-Sending edition_drop key payload w = send-Sending _ key _ w refl
create_drop-Sending open_drop key payload w = send-Sending _ key _ w refl

update_drop-Sending :
    (d : DropType) (key : NftEventKey) (payload : MasterEdition) (w : World)
    → Wp (Sending payload.metadata_uri w) (Solana.update_drop d key payload) w
update_drop-Sending edition_drop key payload w = send-Sending _ key _ w refl
update_drop-Sending open_drop key payload w = send-Sending _ key _ w refl

-- An open drop is refused on Polygon.
polygon_create_drop-Sending :
    (d : DropType) (key : NftEventKey) (payload : CreateEdition) (uri : String) (w : World)
    → info_uri payload.edition_info ≡ some uri
    → Wp (Sending uri w) (Polygon.create_drop hub_core d key payload) w
polygon_create_drop-Sending edition_drop key payload uri w e = send-Sending _ key uri w e
polygon_create_drop-Sending open_drop key payload uri w e = raise-Sending hub_core uri w

polygon_update_drop-Sending :
    (d : DropType) (key : NftEventKey) (payload : EditionInfo) (w : World)
    → Wp (Sending payload.uri w) (Polygon.update_drop hub_core d key payload) w
polygon_update_drop-Sending edition_drop key payload w = send-Sending _ key _ w refl
polygon_update_drop-Sending open_drop key payload w = raise-Sending hub_core _ w

module _ (collection : Collection) (creators : List CreatorRow) (owner : String)
    (stored : MetadataJson × String) (w : World) where
  pub send_create_drop-Sending :
      (b : Blockchain) (drop : Drop)
      → Wp (Sending stored.1 w) (send_create_drop b drop collection creators owner stored) w
  unfolding send_create_drop
  send_create_drop-Sending solana drop = create_drop-Sending drop.drop_type _ _ w
  send_create_drop-Sending polygon drop =
      ok_or_then _ _ _ ((refl, refl, refl, refl, refl), refl, refl)
        λ amount _.
          ok_or_then _ _ _ ((refl, refl, refl, refl, refl), refl, refl)
            λ creator _. polygon_create_drop-Sending drop.drop_type _ _ _ w refl
  send_create_drop-Sending ethereum drop = raise-Sending _ _ w

  pub send_patch_drop-Sending :
      (b : Blockchain) (user : Uuid) (drop : Drop)
      → Wp (Sending stored.1 w) (send_patch_drop b user drop collection creators owner stored) w
  unfolding send_patch_drop
  send_patch_drop-Sending solana user drop = update_drop-Sending drop.drop_type _ _ w
  send_patch_drop-Sending polygon user drop =
      ok_or_then _ _ _ ((refl, refl, refl, refl, refl), refl, refl)
        λ creator _. polygon_update_drop-Sending drop.drop_type _ _ w
  send_patch_drop-Sending ethereum user drop = raise-Sending _ _ w

  pub send_mint_to_collection-Sending :
      (b : Blockchain) (mint : CollectionMint) (recipient : String)
      → Wp
          (Sending stored.1 w)
          (send_mint_to_collection b mint collection creators owner recipient stored)
          w
  unfolding send_mint_to_collection
  send_mint_to_collection-Sending solana mint recipient = send-Sending _ _ _ w refl
  send_mint_to_collection-Sending polygon mint recipient = raise-Sending _ _ w
  send_mint_to_collection-Sending ethereum mint recipient = raise-Sending _ _ w

  pub send_create_collection-Sending :
      (b : Blockchain)
      → Wp (Sending stored.1 w) (send_create_collection b collection creators owner stored) w
  unfolding send_create_collection
  send_create_collection-Sending solana = send-Sending _ _ _ w refl
  send_create_collection-Sending polygon = raise-Sending _ _ w
  send_create_collection-Sending ethereum = raise-Sending _ _ w

  pub send_patch_collection-Sending :
      (b : Blockchain) (user : Uuid)
      → Wp (Sending stored.1 w) (send_patch_collection b user collection creators owner stored) w
  unfolding send_patch_collection
  send_patch_collection-Sending solana user = send-Sending _ _ _ w refl
  send_patch_collection-Sending polygon user = raise-Sending _ _ w
  send_patch_collection-Sending ethereum user = raise-Sending _ _ w

  pub send_update_mint-Sending :
      (b : Blockchain) (history : UpdateHistory)
      → Wp (Sending stored.1 w) (send_update_mint b history collection creators owner stored) w
  unfolding send_update_mint
  send_update_mint-Sending solana history = send-Sending _ _ _ w refl
  send_update_mint-Sending polygon history = raise-Sending _ _ w
  send_update_mint-Sending ethereum history = raise-Sending _ _ w
