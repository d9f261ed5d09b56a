-- ===== src/Tests/Requests.antt =====
-- Witnesses and runs: the mutations and their checks.
use hub_nfts.Prelude.{ℕ, ◌≡◌, ◌≤◌, ◌↔◌, refl, true, false, some, List, [], ◌∷◌, arith, All}
use hub_nfts.Entities.{solana, failed}
use hub_nfts.Effects.{
  World, ok, Wp, IfOk, Succeeds, ◌>>=◌, pure, raise, lift, ok_or, fail_if, call, connect, query,
  insert, insert_row, update, update_row, write, execute, read_clock, read_env, submit, send,
  cache_del, atomically,
}
use hub_nfts.Validation.{
  check_drop_status, validate_creators, validate_solana_creator_verification, royalty_share,
  validate_solana_addresses, validate_solana_address,
}
use hub_nfts.Validation.DropStatus.{IsRunning, check_drop_status-IsRunning}
use hub_nfts.Validation.Creators.{
  IsAccepted, IsOwn, validate_creators-IsAccepted, validate_solana_creator_verification_iff,
}
use hub_nfts.Mutations.Common.{fetch_owner, minted, insert_mint_creators}
use hub_nfts.Mutations.Mints.Editions.{
  retry_mint_edition, Reservation, mint_edition, reserve_edition, record_edition, record_history,
  announce_edition, copy_metadata, insert_files, insert_attributes,
}
use hub_nfts.Mutations.Mints.Editions.Supply.{mint_edition-supply, reserve_edition-race}
use hub_nfts.Mutations.Mints.Editions.Outcome.{EditionOutcome, mint_edition-EditionOutcome}
use hub_nfts.Mutations.Mints.Queue.{mint_queued, mint_found, claim, send_open_mint}
use hub_nfts.Mutations.Mints.Queue.Once.{TakesQueued, mint_queued-TakesQueued, mint_queued-once}
use hub_nfts.Mutations.Drops.{pause_drop, shutdown_drop}
use hub_nfts.Mutations.Collections.{retry_collection, resend_collection}
use hub_nfts.Mutations.Lifecycle.{DropRequest, run_requests, pause_drop-stops, shutdown_drop-final}
use hub_nfts.Mutations.Retries.{
  OnlySubmits, retry_collection-OnlySubmits, HasDeduction, retry_mint_edition-HasDeduction,
}
use hub_nfts.Tests.Example.{pending_mint, env, world, drop, collection, headers, creator}

check_drop_status-IsRunning_example : (check_drop_status drop 50 51 ≡ ok tt) ↔ IsRunning drop 50 51
check_drop_status-IsRunning_example = check_drop_status-IsRunning drop 50 51

validate_creators-IsAccepted_example :
    (validate_creators env solana (creator 200 ∷ creator 156 ∷ []) ≡ ok tt)
    ↔ IsAccepted env solana (creator 200 ∷ creator 156 ∷ [])
validate_creators-IsAccepted_example =
    validate_creators-IsAccepted env solana (creator 200 ∷ creator 156 ∷ [])

validate_solana_creator_verification_iff_example :
    (validate_solana_creator_verification "treasury" (creator 100 ∷ []) ≡ ok tt)
    ↔ All (IsOwn "treasury") (creator 100 ∷ [])
validate_solana_creator_verification_iff_example =
    validate_solana_creator_verification_iff "treasury" (creator 100 ∷ [])

-- Two creators with 356 hundredths are let through.
overflow : validate_creators env solana (creator 200 ∷ creator 156 ∷ []) ≡ ok tt
unfolding validate_creators royalty_share validate_solana_addresses validate_solana_address
overflow = refl

mint_edition-supply_example : minted 10 (mint_edition headers 20 "recipient" world).1.db ≤ 5
mint_edition-supply_example =
    mint_edition-supply headers 20 "recipient" world 10 5 collection refl refl (omega arith)

mint_edition-EditionOutcome_example :
    Wp (EditionOutcome headers 20 world) (mint_edition headers 20 "recipient") world
mint_edition-EditionOutcome_example = mint_edition-EditionOutcome headers 20 "recipient" world

-- What a request that is checked at `world` reserves, with this deduction.
abbrev reserved : ℕ → Reservation
reserved deduction = record {
  user = 2;
  drop = drop;
  collection = collection;
  edition = 2;
  owner_address = "treasury";
  deduction = deduction;
}

abbrev after_first : World
after_first = (reserve_edition headers 20 world).1

reserve_edition-race_example :
    (collection ≡ collection) × ((reserved 107).edition ≡ (reserved 114).edition)
unfolding reserve_edition fetch_owner check_drop_status ◌>>=◌ pure lift ok_or fail_if call connect
    query read_clock submit
reserve_edition-race_example =
    reserve_edition-race headers headers 20 world (reserved 107) (reserved 114) after_first
      (reserve_edition headers 20 after_first).1 refl refl

mint_queued-TakesQueued_example :
    Wp (IfOk (λ m. TakesQueued 30 world)) (mint_queued headers 30 "recipient" false) world
mint_queued-TakesQueued_example = mint_queued-TakesQueued headers 30 "recipient" false world

mint_queued-once_example :
    ¬ Succeeds
      (mint_queued headers 30 "other" true (mint_queued headers 30 "recipient" false world).1).0
unfolding mint_queued mint_found claim send_open_mint fetch_owner ◌>>=◌ pure raise ok_or fail_if
    call connect query insert insert_row update update_row execute read_clock read_env submit send
    cache_del atomically
mint_queued-once_example =
    mint_queued-once headers headers 30 "recipient" "other" false true world tt

pause_drop-stops_example :
    ¬ Succeeds (mint_edition headers 20 "recipient" (pause_drop 20 world).1).0
unfolding pause_drop ◌>>=◌ pure ok_or call query update update_row execute read_clock
pause_drop-stops_example = pause_drop-stops 20 headers "recipient" world tt

abbrev attempts : List DropRequest
attempts =
    DropRequest.resume 20
    ∷ DropRequest.retry headers 20
    ∷ DropRequest.pause 20
    ∷ DropRequest.resume 20
    ∷ []

shutdown_drop-final_example :
    ¬ Succeeds
      (mint_edition headers 20 "recipient" (run_requests attempts (shutdown_drop 20 world).1)).0
unfolding shutdown_drop ◌>>=◌ pure ok_or call query update update_row execute read_clock
shutdown_drop-final_example = shutdown_drop-final 20 attempts headers "recipient" world tt

-- The collection failed.
abbrev failed_collection : World
failed_collection = record world {
  db = record (world.db) { collections = record collection { creation_status = failed } ∷ [] };
}

retry_collection-OnlySubmits_example :
    Wp (OnlySubmits failed_collection) (retry_collection headers 10) failed_collection
retry_collection-OnlySubmits_example = retry_collection-OnlySubmits headers 10 failed_collection

retry_mint_edition-HasDeduction_example :
    Wp (λ r w'. HasDeduction 31 (some 7) w') (retry_mint_edition headers 31) world
retry_mint_edition-HasDeduction_example =
    retry_mint_edition-HasDeduction 31 (some 7) headers 31 world
      (record { mint = pending_mint; found = refl; same_deduction = refl })

-- Runs that succeed.
mint_edition-runs :
    Succeeds (mint_edition headers 20 "recipient" world).0
    × (minted 10 (mint_edition headers 20 "recipient" world).1.db ≡ 2)
unfolding mint_edition reserve_edition record_edition record_history announce_edition copy_metadata
    insert_files insert_attributes fetch_owner insert_mint_creators check_drop_status ◌>>=◌ pure
    raise lift ok_or fail_if call connect query insert insert_row write execute read_clock read_env
    submit send cache_del atomically
mint_edition-runs = (tt, refl)

retry_collection-runs : Succeeds (retry_collection headers 10 failed_collection).0
unfolding retry_collection resend_collection fetch_owner ◌>>=◌ pure raise ok_or fail_if call query
    submit send
retry_collection-runs = tt
