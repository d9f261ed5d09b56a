-- ===== src/Errors.antt =====
-- The errors that the mutations raise themselves: one constructor for each message of
-- `Error::new` in api/src/mutations and api/src/objects/drop.rs.

pub data Error : Type 0 where
  user_id_not_found organization_id_not_found balance_not_found : Error
  drop_not_found collection_not_found mint_not_found metadata_json_not_found : Error
  metadata_uri_not_found update_history_not_found no_project_wallet : Error
  drop_not_created drop_paused drop_shutdown drop_not_started drop_ended : Error
  collection_not_created sold_out already_created already_updated : Error
  only_failed_retried mint_not_created mint_is_edition mint_is_compressed : Error
  no_owner no_compressed not_queued no_queued_mint not_enough_mints : Error
  no_recipients batch_too_large only_solana compression_not_supported : Error
  shares_not_100 too_many_creators one_creator blockchain_not_supported : Error
  not_solana_address not_evm_address only_treasury_verified : Error
  invalid_animation_url invalid_external_url invalid_image_url name_too_long symbol_too_long : Error
  zero_supply polygon_supply_required polygon_one_creator end_time_in_past : Error
  supply_is_null no_creator open_drops_not_on_polygon conversion : Error
  already_switched other_project not_certified sender_not_managed no_drop_status no_total_mints
        no_supply :
      Error
