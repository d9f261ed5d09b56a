-- ===== src/Events/Histories.antt =====
-- Transfers, updates and switches of collection: `mint_transferred`, `mint_updated` and
-- `switch_collection_submitted` of api/src/events.rs.
use hub_nfts.Prelude.{String, some}
use hub_nfts.Entities.{
  Uuid, created, failed, CollectionMint, UpdateHistory, SwitchCollectionHistory, TransferCharge,
}
use hub_nfts.Effects.{
  ◌>>=◌, ◌>>◌, pure, ok_or, query, update, read_env, confirm, find_by_id, mints_table,
  update_histories_table, switch_histories_table, transfer_charges_table,
}
use hub_nfts.Events.Results.{
  SignedResult, invalid_uuid, db_missing_transfer_charge, db_missing_update_history,
  db_missing_switch_collection_history, db_missing_collection_mint, record_missing_deduction_id,
}
use hub_nfts.Events.Creation.{Process}

abbrev pub confirm_transfer : SignedResult → TransferCharge → Process
confirm_transfer (SignedResult.success _) charge =
    ok_or charge.credits_deduction_id record_missing_deduction_id >>= confirm
confirm_transfer SignedResult.failure charge = pure tt

unfoldable pub mint_transferred : String → SignedResult → Process
mint_transferred id payload = do
  env ← read_env
  transfer_id ← ok_or (env.parse_uuid id) invalid_uuid
  found ← query (find_by_id transfer_charges_table transfer_id)
  charge ← ok_or found db_missing_transfer_charge
  confirm_transfer payload charge

abbrev pub settle_update : SignedResult → UpdateHistory → UpdateHistory
settle_update (SignedResult.success signature) h = record h {
  txn_signature = some signature;
  status = created;
}
settle_update SignedResult.failure h = record h { status = failed }

unfoldable pub confirm_signed : SignedResult → Uuid → Process
confirm_signed (SignedResult.success _) deduction = confirm deduction
confirm_signed SignedResult.failure deduction = pure tt

unfoldable pub mint_updated : String → SignedResult → Process
mint_updated id payload = do
  env ← read_env
  history_id ← ok_or (env.parse_uuid id) invalid_uuid
  found ← query (find_by_id update_histories_table history_id)
  history ← ok_or found db_missing_update_history
  confirm_signed payload history.credit_deduction_id
  update update_histories_table history.id (settle_update payload)
  pure tt

abbrev pub settle_switch : SignedResult → SwitchCollectionHistory → SwitchCollectionHistory
settle_switch (SignedResult.success signature) h = record h {
  signature = some signature;
  status = created;
}
settle_switch SignedResult.failure h = record h { status = failed }

-- On a success the mint moves to the new collection.
unfoldable pub move_mint : SignedResult → CollectionMint → SwitchCollectionHistory → Process
move_mint (SignedResult.success _) mint history = do
  update mints_table mint.id (λ m. record m { collection_id = history.collection_id })
  confirm history.credit_deduction_id
move_mint SignedResult.failure mint history = pure tt

unfoldable pub switch_collection_submitted : String → SignedResult → Process
switch_collection_submitted id payload = do
  env ← read_env
  history_id ← ok_or (env.parse_uuid id) invalid_uuid
  found ← query (find_by_id switch_histories_table history_id)
  history ← ok_or found db_missing_switch_collection_history
  found_mint ← query (find_by_id mints_table history.collection_mint_id)
  mint ← ok_or found_mint db_missing_collection_mint
  move_mint payload mint history
  update switch_histories_table history.id (settle_switch payload)
  pure tt
