-- ===== src/Tests/Messages.antt =====
-- Witnesses and runs: the messages of the other services.
use hub_nfts.Prelude.{◌≡◌, refl, some, [], ◌∷◌}
use hub_nfts.Effects.{
  Wp, IfOk, Succeeds, ◌>>=◌, pure, ok_or, call, query, update, update_row, execute, read_env,
  confirm, send, each, connect, insert, insert_row, atomically,
}
use hub_nfts.Events.Results.{MintResult}
use hub_nfts.Events.Creation.{confirm_success, drop_created_handler, drop_minted_handler}
use hub_nfts.Events.Ownership.{OwnershipUpdate, update_polygon_mints_owner, hand_over}
use hub_nfts.Events.Dispatch.{Message, SolanaEvent, Attempt, process}
use hub_nfts.Events.Confirmations.{Changes, IsCharged, process-Confirms}
use hub_nfts.Events.Settlement.{
  DropSettled, MintSettled, drop_created_handler-DropSettled, drop_minted_handler-MintSettled,
}
use hub_nfts.Events.Handover.{HandOver, update_polygon_mints_owner-HandOver}
use hub_nfts.Tests.Example.{world}

abbrev outcome : MintResult
outcome = MintResult.success "signature" "address"

abbrev message : Message
message =
    Message.solana "mint"
      (SolanaEvent.mint_edition_drop_submitted Attempt.first_try "signature" "address")

process-Confirms_example : Wp (Changes (IsCharged world.db) world) (process message) world
process-Confirms_example = process-Confirms message world

drop_created_handler-DropSettled_example :
    Wp
      (IfOk (λ a. DropSettled "collection" outcome world))
      (drop_created_handler "collection" outcome)
      world
drop_created_handler-DropSettled_example =
    drop_created_handler-DropSettled "collection" outcome world

drop_minted_handler-MintSettled_example :
    Wp (IfOk (λ a. MintSettled "mint" outcome world)) (drop_minted_handler "mint" outcome) world
drop_minted_handler-MintSettled_example = drop_minted_handler-MintSettled "mint" outcome world

abbrev owners : OwnershipUpdate
owners = record {
  mint_ids = "mint" ∷ [];
  new_owner = "new";
  timestamp = some 9;
  transaction_hash = "hash";
}

update_polygon_mints_owner-HandOver_example :
    Wp (HandOver owners world) (update_polygon_mints_owner owners) world
update_polygon_mints_owner-HandOver_example = update_polygon_mints_owner-HandOver owners world

-- Runs that succeed, with the deductions that they confirm.
drop_created-runs :
    Succeeds (drop_created_handler "collection" outcome world).0
    × ((drop_created_handler "collection" outcome world).1.confirmed ≡ 6 ∷ [])
unfolding drop_created_handler confirm_success ◌>>=◌ pure ok_or call query update update_row execute
    read_env confirm send
drop_created-runs = (tt, refl)

drop_minted-runs :
    Succeeds (process message world).0 × ((process message world).1.confirmed ≡ 7 ∷ [])
unfolding process drop_minted_handler confirm_success ◌>>=◌ pure ok_or call query update update_row
    execute read_env confirm send
drop_minted-runs = (tt, refl)

handover-runs : Succeeds (update_polygon_mints_owner owners world).0
unfolding update_polygon_mints_owner hand_over each ◌>>=◌ pure ok_or call connect query update
    update_row execute insert insert_row read_env atomically
handover-runs = tt
