-- ===== src/Tests/Mints.antt =====
-- Witnesses and runs: mints to a collection.
use hub_nfts.Prelude.{some, [], ◌∷◌, false}
use hub_nfts.Entities.{created}
use hub_nfts.Effects.{
  World, Wp, IfOk, Succeeds, total_mints, ◌>>=◌, pure, lift, ok_or, call, connect, query, insert,
  insert_row, write, execute, read_clock, read_env, submit, send, cache_del, atomically, enqueue,
  track, push_job, each,
}
use hub_nfts.Validation.{
  validate_creators, validate_json, check_collection_status, validate_compress,
  validate_solana_creator_verification, royalty_share, validate_solana_addresses,
  validate_solana_address,
}
use hub_nfts.Mutations.Common.{
  fetch_owner, insert_each_mint_creator, insert_mint_creator, save_metadata, save_files,
  upsert_metadata, clear_attributes,
}
use hub_nfts.Mutations.Mints.ToCollection.{MintToCollectionInput, record_mint, mint_to_collection}
use hub_nfts.Mutations.Mints.ToCollection.Minted.{IsMinted, mint_to_collection-IsMinted}
use hub_nfts.Tests.Example.{world, collection, headers, creator, metadata}

abbrev mint_input : MintToCollectionInput
mint_input = record {
  collection = 10;
  recipient = "recipient";
  metadata_json = metadata;
  seller_fee_basis_points = some 500;
  creators = creator 100 ∷ [];
  compressed = some false;
}

-- A collection that was created, with a cached total.
abbrev open_collection : World
open_collection = record world {
  db = record (world.db) {
    collections = record collection { creation_status = created } ∷ [];
    drops = [];
  };
  cache = (total_mints 10, 1) ∷ [];
}

mint_to_collection-IsMinted_example :
    Wp
      (IfOk (λ m v. IsMinted headers mint_input m open_collection v))
      (mint_to_collection headers mint_input)
      open_collection
mint_to_collection-IsMinted_example = mint_to_collection-IsMinted headers mint_input open_collection

mint_to_collection-runs : Succeeds (mint_to_collection headers mint_input open_collection).0
unfolding mint_to_collection record_mint fetch_owner validate_creators validate_json
    check_collection_status validate_compress validate_solana_creator_verification royalty_share
    validate_solana_addresses validate_solana_address insert_each_mint_creator insert_mint_creator
    save_metadata save_files enqueue track push_job ◌>>=◌ pure lift ok_or call connect insert
    insert_row write execute query read_clock read_env submit send cache_del atomically each
    clear_attributes upsert_metadata
mint_to_collection-runs = tt
