-- ===== src/Mutations/Common/Writes.antt =====
-- Rows of creators, and `MetadataJsonInput::save` of api/src/objects/metadata_json.rs.
use hub_nfts.Prelude.{
  Bool, not, ◌&&◌, Option, none, some, List, [], ◌∷◌, ◌==◌, str_eq, if◌then◌else◌, find, select,
  is_some,
}
use hub_nfts.Entities.{Uuid, MetadataJson, CreatorRow}
use hub_nfts.Effects.{Env, Db, M, ◌>>◌, pure, each, write, execute}
use hub_nfts.Inputs.{property_files, Creator, MetadataJsonInput, Attribute, File}
use hub_nfts.Mutations.Common.Queries.{creator_row}

-- The primary key of a creator is the collection or mint with the address.
abbrev pub same_creator : CreatorRow → CreatorRow → Bool
same_creator a b = a.of == b.of && str_eq a.address b.address

abbrev pub add_creator : CreatorRow → List CreatorRow → Option (List CreatorRow)
add_creator row rows = if is_some (find (same_creator row) rows) then none else some (row ∷ rows)

abbrev pub put_collection_creators : Db → Option (List CreatorRow) → Option (Unit {0} × Db)
put_collection_creators db none = none
put_collection_creators db (some rows) = some (tt, record db { collection_creators = rows })

abbrev pub put_mint_creators : Db → Option (List CreatorRow) → Option (Unit {0} × Db)
put_mint_creators db none = none
put_mint_creators db (some rows) = some (tt, record db { mint_creators = rows })

-- `insert_many`: one statement, refused as a whole.
abbrev pub add_creators : List CreatorRow → List CreatorRow → Option (List CreatorRow)
add_creators [] rows = some rows
add_creators (c ∷ cs) rows = elim (add_creators cs rows) [
  | none ↦ none
  | some rest ↦ add_creator c rest
]

abbrev pub saved_row : Env → CreatorRow → CreatorRow
saved_row env r = record r { address = env.before_save r.address }

module _ {E : Type 0} where
  unfoldable pub insert_collection_creator : Env → CreatorRow → M E (Unit {0})
  insert_collection_creator env r =
      execute
        (λ db. put_collection_creators db (add_creator (saved_row env r) db.collection_creators))

  unfoldable pub insert_mint_creator : Env → CreatorRow → M E (Unit {0})
  insert_mint_creator env r =
      execute (λ db. put_mint_creators db (add_creator (saved_row env r) db.mint_creators))

  -- `if !rows.is_empty() { insert_many(rows) }`
  unfoldable pub insert_collection_creators : List CreatorRow → M E (Unit {0})
  insert_collection_creators [] = pure tt
  insert_collection_creators (r ∷ rs) =
      execute (λ db. put_collection_creators db (add_creators (r ∷ rs) db.collection_creators))

  unfoldable pub insert_mint_creators : List CreatorRow → M E (Unit {0})
  insert_mint_creators [] = pure tt
  insert_mint_creators (r ∷ rs) =
      execute (λ db. put_mint_creators db (add_creators (r ∷ rs) db.mint_creators))

  -- `for creator in creators { … insert }`
  unfoldable pub insert_each_collection_creator : Env → Uuid → List Creator → M E (Unit {0})
  insert_each_collection_creator env of creators =
      each (λ c. insert_collection_creator env (creator_row of c)) creators

  unfoldable pub insert_each_mint_creator : Env → Uuid → List Creator → M E (Unit {0})
  insert_each_mint_creator env of creators =
      each (λ c. insert_mint_creator env (creator_row of c)) creators

-- The row of a request's metadata: neither uploaded nor identified yet.
abbrev pub metadata_row : Uuid → MetadataJsonInput → MetadataJson
metadata_row id json = record {
  id = id;
  identifier = none;
  name = json.name;
  uri = none;
  symbol = json.symbol;
  description = json.description;
  image = json.image;
  animation_url = json.animation_url;
  external_url = json.external_url;
}

-- `on_conflict(Id).update_columns(…)`: every column but the key.
unfoldable pub upsert_metadata : MetadataJson → Db → Db
upsert_metadata row db = record db {
  metadata_jsons = row ∷ select (λ r. not (r.id == row.id)) db.metadata_jsons;
}

unfoldable pub clear_attributes : Uuid → Db → Db
clear_attributes id db = record db {
  metadata_attributes = select (λ a. not (a.metadata_json_id == id)) db.metadata_attributes;
}

unfoldable pub insert_attribute : Uuid → Attribute → Db → Db
insert_attribute id a db = record db {
  metadata_attributes =
      record { metadata_json_id = id; trait_type = a.trait_type; value = a.value }
      ∷ db.metadata_attributes;
}

unfoldable pub clear_files : Uuid → Db → Db
clear_files id db = record db {
  metadata_files = select (λ f. not (f.metadata_json_id == id)) db.metadata_files;
}

unfoldable pub insert_file : Uuid → File → Db → Db
insert_file id f db = record db {
  metadata_files =
      record { metadata_json_id = id; uri = f.uri; file_type = f.file_type } ∷ db.metadata_files;
}

module _ {E : Type 0} where
  -- Files that the request does not give are left as they are.
  unfoldable pub save_files : Uuid → Option (List File) → M E (Unit {0})
  save_files id none = pure tt
  save_files id (some files) = do write (clear_files id); each (λ f. write (insert_file id f)) files

  -- `MetadataJsonInput::save`
  unfoldable pub save_metadata : Uuid → MetadataJsonInput → M E (Unit {0})
  save_metadata id json = do
    write (upsert_metadata (metadata_row id json))
    write (clear_attributes id)
    each (λ a. write (insert_attribute id a)) json.attributes
    save_files id (property_files json.properties)
