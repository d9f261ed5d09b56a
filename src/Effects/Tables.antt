-- ===== src/Effects/Tables.antt =====
-- Tables with a primary key. A row that is inserted comes first; the code never relies on the
-- order in which the database returns rows.
use hub_nfts.Prelude.{
  Bool, not, Option, none, some, List, ◌∷◌, ◌==◌, if◌then◌else◌, find, select, is_some,
  update_where,
}
use hub_nfts.Entities.{
  Uuid, Drop, Collection, CollectionMint, MintHistory, UpdateHistory, SwitchCollectionHistory,
  TransferCharge, NftTransfer, ProjectWallet, CustomerWallet, MetadataJson,
}
use hub_nfts.Effects.State.{Db}

pub record Table (A : Type 0) : Type 0 where
  pub rows : Db → List A
  pub put : List A → Db → Db
  pub key : A → Uuid

module _ {A : Type 0} (t : Table A) where
  abbrev pub has_key : Uuid → A → Bool
  has_key id row = t.key row == id

  abbrev pub find_by_id : Uuid → Db → Option A
  find_by_id id db = find (has_key id) (t.rows db)

  -- A second row with the same key is refused.
  unfoldable pub insert_row : A → Db → Option Db
  insert_row row db =
      if is_some (find_by_id (t.key row) db) then none else some (t.put (row ∷ t.rows db) db)

  -- The columns that `f` sets are written to the row with this key, which must be there; the new
  -- row is returned.
  abbrev updated : Uuid → (A → A) → Db → Option A → Option (A × Db)
  updated id f db none = none
  updated id f db (some row) = some (f row, t.put (update_where (has_key id) f (t.rows db)) db)

  unfoldable pub update_row : Uuid → (A → A) → Db → Option (A × Db)
  update_row id f db = updated id f db (find_by_id id db)

  unfoldable pub delete_rows : (A → Bool) → Db → Db
  delete_rows test db = t.put (select (λ row. not (test row)) (t.rows db)) db

abbrev pub drops_table : Table Drop
drops_table = record {
  rows = λ db. db.drops;
  put = λ l db. record db { drops = l };
  key = λ r. r.id;
}

abbrev pub collections_table : Table Collection
collections_table = record {
  rows = λ db. db.collections;
  put = λ l db. record db { collections = l };
  key = λ r. r.id;
}

abbrev pub mints_table : Table CollectionMint
mints_table = record {
  rows = λ db. db.mints;
  put = λ l db. record db { mints = l };
  key = λ r. r.id;
}

abbrev pub mint_histories_table : Table MintHistory
mint_histories_table = record {
  rows = λ db. db.mint_histories;
  put = λ l db. record db { mint_histories = l };
  key = λ r. r.id;
}

abbrev pub update_histories_table : Table UpdateHistory
update_histories_table = record {
  rows = λ db. db.update_histories;
  put = λ l db. record db { update_histories = l };
  key = λ r. r.id;
}

abbrev pub switch_histories_table : Table SwitchCollectionHistory
switch_histories_table = record {
  rows = λ db. db.switch_histories;
  put = λ l db. record db { switch_histories = l };
  key = λ r. r.id;
}

abbrev pub transfer_charges_table : Table TransferCharge
transfer_charges_table = record {
  rows = λ db. db.transfer_charges;
  put = λ l db. record db { transfer_charges = l };
  key = λ r. r.id;
}

abbrev pub nft_transfers_table : Table NftTransfer
nft_transfers_table = record {
  rows = λ db. db.nft_transfers;
  put = λ l db. record db { nft_transfers = l };
  key = λ r. r.id;
}

abbrev pub project_wallets_table : Table ProjectWallet
project_wallets_table = record {
  rows = λ db. db.project_wallets;
  put = λ l db. record db { project_wallets = l };
  key = λ r. r.id;
}

abbrev pub customer_wallets_table : Table CustomerWallet
customer_wallets_table = record {
  rows = λ db. db.customer_wallets;
  put = λ l db. record db { customer_wallets = l };
  key = λ r. r.id;
}

abbrev pub metadata_jsons_table : Table MetadataJson
metadata_jsons_table = record {
  rows = λ db. db.metadata_jsons;
  put = λ l db. record db { metadata_jsons = l };
  key = λ r. r.id;
}
