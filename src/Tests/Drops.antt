-- ===== src/Tests/Drops.antt =====
-- Witnesses and runs: the creation of a drop, its pause, and the cached counts.
use hub_nfts.Prelude.{◌≡◌, refl, some, [], ◌∷◌}
use hub_nfts.Effects.{
  World, Wp, IfOk, Succeeds, ok, total_mints, find_by_id, drops_table, ◌>>=◌, ◌>>◌, pure, lift,
  ok_or, call, connect, query, insert, insert_row, write, execute, read_clock, read_env, submit,
  send, atomically, enqueue, track, push_job, cache_get, cache_set, each,
}
use hub_nfts.Errors.{Error}
use hub_nfts.Validation.{
  validate_drop, validate_creators, validate_json, validate_end_time, validate_polygon_supply,
  validate_polygon_creator, validate_solana_creator_verification, royalty_share,
  validate_solana_addresses, validate_solana_address,
}
use hub_nfts.Mutations.Common.{
  fetch_owner, insert_each_collection_creator, insert_collection_creator, save_metadata, save_files,
  upsert_metadata, clear_attributes,
}
use hub_nfts.Mutations.Drops.{create_drop, record_drop, pause_drop, resume_drop}
use hub_nfts.Mutations.Drops.Created.{IsCreated, create_drop-IsCreated}
use hub_nfts.Mutations.Lifecycle.Resume.{pause_drop-resume_drop}
use hub_nfts.Loaders.{load_total_mints, read_cached, fill_cache, count_missing}
use hub_nfts.Loaders.Agreement.{Loaded, load_total_mints-Loaded}
use hub_nfts.Tests.Example.{world, headers, drop, drop_input}

create_drop-IsCreated_example :
    Wp (IfOk (λ d v. IsCreated d world v)) (create_drop headers drop_input) world
create_drop-IsCreated_example = create_drop-IsCreated headers drop_input world

create_drop-runs : Succeeds (create_drop headers drop_input world).0
unfolding create_drop record_drop fetch_owner validate_drop validate_creators validate_json
    validate_end_time validate_polygon_supply validate_polygon_creator
    validate_solana_creator_verification royalty_share validate_solana_addresses
    validate_solana_address insert_each_collection_creator insert_collection_creator save_metadata
    save_files enqueue track push_job ◌>>=◌ pure lift ok_or call connect insert insert_row write
    execute query read_clock read_env submit send atomically each clear_attributes upsert_metadata
create_drop-runs = tt

pause_drop-resume_drop_example :
    Wp
      (IfOk (λ r v. find_by_id drops_table 20 v.db ≡ some drop))
      (pause_drop 20 >> resume_drop 20)
      world
pause_drop-resume_drop_example = pause_drop-resume_drop 20 drop world refl refl

-- The total of the collection is in the cache: one mint is pending and one is queued.
abbrev cached : World
cached = record world { cache = (total_mints 10, 1) ∷ [] }

load_total_mints-Loaded_example :
    Wp (Loaded {E = Error} (10 ∷ 11 ∷ []) cached.db) (load_total_mints (10 ∷ 11 ∷ [])) cached
load_total_mints-Loaded_example =
    load_total_mints-Loaded {E = Error} (10 ∷ 11 ∷ []) cached (refl, tt)

load_total_mints-runs :
    (load_total_mints {E = Error} (10 ∷ 11 ∷ []) cached).0 ≡ ok ((11, 0) ∷ (10, 1) ∷ [])
unfolding load_total_mints read_cached fill_cache count_missing cache_get cache_set connect query
    call pure ◌>>=◌
load_total_mints-runs = refl
