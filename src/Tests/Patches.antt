-- ===== src/Tests/Patches.antt =====
-- Witnesses and runs: patches and imports.
use hub_nfts.Prelude.{refl, none, some, [], ◌∷◌}
use hub_nfts.Effects.{
  World, Wp, IfOk, Succeeds, ◌>>=◌, pure, lift, ok_or, call, connect, query, update, update_row,
  execute, read_clock, read_env, send, atomically,
}
use hub_nfts.Mutations.Common.{fetch_owner}
use hub_nfts.Mutations.Patches.{replace_creators}
use hub_nfts.Mutations.Patches.OfDrop.{
  PatchDropInput, patch_drop, write_drop_patch, finish_drop_patch, send_updated_drop,
}
use hub_nfts.Mutations.Imports.{ImportCollectionInput, import_solana_collection, imported_before}
use hub_nfts.Mutations.Imports.Removed.{ImportOutcome, import_solana_collection-ImportOutcome}
use hub_nfts.Events.Imports.{SolanaCollectionPayload, index_collection}
use hub_nfts.Events.Imported.{
  Imported, index_collection-Imported, Refused, index_collection-Refused,
}
use hub_nfts.Validation.{validate_end_time}
use hub_nfts.Tests.Example.{world, headers, collection}

abbrev price_only : PatchDropInput
price_only = record {
  id = 20;
  price = some 3;
  start_time = none;
  end_time = none;
  seller_fee_basis_points = none;
  metadata_json = none;
  creators = none;
}

-- The patch of the price succeeds.
patch_drop-runs : Succeeds (patch_drop headers price_only world).0
unfolding patch_drop write_drop_patch finish_drop_patch send_updated_drop replace_creators
    fetch_owner validate_end_time ◌>>=◌ pure lift ok_or call connect query update update_row execute
    read_clock read_env send atomically
patch_drop-runs = tt

-- A state in which the collection has an address.
abbrev certified : World
certified = record world {
  db = record (world.db) { collections = record collection { address = some "address" } ∷ [] };
}

abbrev import_input : ImportCollectionInput
import_input = record { project = 1; collection = "address" }

import_solana_collection-ImportOutcome_example :
    Wp
      (ImportOutcome (imported_before import_input certified.db) certified)
      (import_solana_collection headers import_input)
      certified
import_solana_collection-ImportOutcome_example =
    import_solana_collection-ImportOutcome headers import_input certified

abbrev payload : SolanaCollectionPayload
payload = record {
  supply = none;
  mint_address = "address";
  seller_fee_basis_points = 500;
  creators = [];
  metadata = some (record {
    name = "name";
    description = none;
    symbol = "symbol";
    attributes = [];
    uri = "uri";
    image = "image";
  });
  files = [];
}

-- No collection and no metadata is there.
abbrev empty : World
empty = record world { db = record (world.db) { collections = []; metadata_jsons = [] } }

index_collection-Imported_example :
    Wp
      (IfOk (λ u w'. Imported payload 10 empty.db w'.db))
      (index_collection "collection" "project" "user" payload)
      empty
index_collection-Imported_example =
    index_collection-Imported "collection" "project" "user" payload 10 empty refl

index_collection-Refused_example :
    Wp (Refused world) (index_collection "collection" "project" "user" payload) world
index_collection-Refused_example =
    index_collection-Refused "collection" "project" "user" payload 10 collection world refl refl
