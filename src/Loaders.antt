-- ===== src/Loaders.antt =====
-- The batched reads that go through the cache: `TotalMintsLoader` and `SupplyLoader` of
-- api/src/dataloaders/collection.rs. A hash map is a list of its entries, the newest first.
use hub_nfts.Prelude.{
  ℕ, Bool, true, false, Option, none, some, List, [], ◌∷◌, ◌++◌, ◌==◌, find, select, tally, map,
  if◌then◌else◌,
}
use hub_nfts.Entities.{Uuid, DropType, is_edition, Drop, Collection}
use hub_nfts.Effects.{
  Db, CacheKey, total_mints, supply, M, ◌>>=◌, ◌>>◌, pure, connect, query, cache_get, cache_set,
  find_by_id, collections_table,
}
use hub_nfts.Mutations.Common.{minted}
pub mod Agreement

abbrev pub Counts : Type 0
Counts = List (Uuid × ℕ)

-- A value that was found, or a key that is missing.
abbrev pub noted : Uuid → Option ℕ → Counts × List Uuid → Counts × List Uuid
noted id none (found, missing) = (found, id ∷ missing)
noted id (some value) (found, missing) = ((id, value) ∷ found, missing)

-- All mints of a collection, queued ones too.
abbrev pub all_mints : Uuid → Db → ℕ
all_mints id db = tally (λ m. m.collection_id == id) db.mints

abbrev pub as_some : Uuid × ℕ → Uuid × Option ℕ
as_some entry = (entry.0, some entry.1)

-- The rows of the inner join of collections with drops, for the collections with these ids.
abbrev pub is_listed : List Uuid → Uuid → Bool
is_listed [] id = false
is_listed (x ∷ xs) id = if x == id then true else is_listed xs id

abbrev pub joined : Db → List Drop → List (Collection × Drop)
joined db [] = []
joined db (d ∷ ds) = elim (find_by_id collections_table d.collection_id db) [
  | none ↦ joined db ds
  | some c ↦ (c, d) ∷ joined db ds
]

abbrev pub collections_with_drops : List Uuid → Db → List (Collection × Drop)
collections_with_drops ids db = select (λ row. is_listed ids row.0.id) (joined db db.drops)

-- The supply of the collection of an edition, and the collections whose mints are counted.
abbrev pub limited : List (Collection × Drop) → List (Uuid × Option ℕ)
limited [] = []
limited ((c, d) ∷ rows) =
    let rest = limited rows in if is_edition d.drop_type then (c.id, c.supply) ∷ rest else rest

abbrev pub to_compute : List (Collection × Drop) → List Uuid
to_compute [] = []
to_compute ((c, d) ∷ rows) =
    let rest = to_compute rows in if is_edition d.drop_type then rest else c.id ∷ rest

module _ {E : Type 0} where
  unfoldable pub read_cached : (Uuid → CacheKey) → List Uuid → M E (Counts × List Uuid)
  read_cached key [] = pure ([], [])
  read_cached key (id ∷ ids) =
      cache_get (key id) >>= λ value. read_cached key ids >>= λ rest. pure (noted id value rest)

  unfoldable pub fill_cache : (Uuid → CacheKey) → (Uuid → ℕ) → List Uuid → M E Counts
  fill_cache key count [] = pure []
  fill_cache key count (id ∷ ids) = do
    cache_set (key id) (count id)
    rest ← fill_cache key count ids
    pure ((id, count id) ∷ rest)

  -- The counts of the missing collections: one query, with 0 where it has no group.
  unfoldable pub count_missing : Counts × List Uuid → M E Counts
  count_missing (found, []) = pure found
  count_missing (found, id ∷ ids) = query (λ db id. minted id db) >>= λ count.
      fill_cache total_mints count (id ∷ ids) >>= λ filled. pure (filled ++ found)

  -- `TotalMintsLoader::load`
  unfoldable pub load_total_mints : List Uuid → M E Counts
  load_total_mints ids = do connect; rest ← read_cached total_mints ids; count_missing rest

  unfoldable pub count_supplies : List (Uuid × Option ℕ) → List Uuid → M E (List (Uuid × Option ℕ))
  count_supplies results [] = pure results
  count_supplies results (id ∷ ids) = query (λ db id. all_mints id db) >>= λ count.
      fill_cache supply count (id ∷ ids) >>= λ filled. pure (map as_some filled ++ results)

  -- `SupplyLoader::load`
  unfoldable pub load_supply : List Uuid → M E (List (Uuid × Option ℕ))
  load_supply ids = do
    connect
    rest ← read_cached supply ids
    rows ← query (collections_with_drops rest.1)
    count_supplies (limited rows ++ map as_some rest.0) (to_compute rows)
