-- ===== src/Tests/Collections.antt =====
-- Witnesses and runs: the creation of a collection.
use hub_nfts.Prelude.{[], ◌∷◌}
use hub_nfts.Entities.{solana}
use hub_nfts.Effects.{
  Wp, IfOk, Succeeds, ◌>>=◌, pure, lift, ok_or, call, connect, query, insert, insert_row, write,
  execute, read_clock, read_env, submit, send, atomically, enqueue, track, push_job, each,
}
use hub_nfts.Validation.{
  validate_collection, validate_creators, validate_json, validate_solana_creator_verification,
  royalty_share, validate_solana_addresses, validate_solana_address,
}
use hub_nfts.Mutations.Common.{
  fetch_owner, insert_each_collection_creator, insert_collection_creator, save_metadata, save_files,
  upsert_metadata, clear_attributes,
}
use hub_nfts.Mutations.Collections.{CreateCollectionInput, record_collection, create_collection}
use hub_nfts.Mutations.Collections.Created.{CollectionCreated, create_collection-CollectionCreated}
use hub_nfts.Tests.Example.{world, headers, creator, metadata}

abbrev collection_input : CreateCollectionInput
collection_input = record {
  project = 1;
  blockchain = solana;
  creators = creator 100 ∷ [];
  metadata_json = metadata;
}

create_collection-CollectionCreated_example :
    Wp
      (IfOk (λ c v. CollectionCreated headers collection_input c world v))
      (create_collection headers collection_input)
      world
create_collection-CollectionCreated_example =
    create_collection-CollectionCreated headers collection_input world

create_collection-runs : Succeeds (create_collection headers collection_input world).0
unfolding create_collection record_collection fetch_owner validate_collection validate_creators
    validate_json validate_solana_creator_verification royalty_share validate_solana_addresses
    validate_solana_address insert_each_collection_creator insert_collection_creator save_metadata
    save_files enqueue track push_job ◌>>=◌ pure lift ok_or call connect insert insert_row write
    execute query read_clock read_env submit send atomically each clear_attributes upsert_metadata
create_collection-runs = tt
