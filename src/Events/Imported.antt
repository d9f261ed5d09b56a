-- ===== src/Events/Imported.antt =====
-- What an import of a collection leaves in the tables, and why it cannot be repeated.
use hub_nfts.Prelude.{◌≡◌, refl, sym, ap, ◌∙◌, subst, String, Option, none, some, List, ◌∷◌, find}
use mathlib.Core.Option.{some-injective}
use hub_nfts.Entities.{Uuid, Collection, MetadataJson, CreatorRow, created, solana}
use hub_nfts.Effects.{
  Env, Db, World, Wp, Result, ok, err, fault, IfOk, ◌>>◌, each, write, find_by_id,
  collections_table, metadata_jsons_table, ok_or_then, read_env_then, read_clock_then, insert_then,
  execute_then, write_then, part_then, pure_end, by_then, weaken, each_by, find-has_key, has_key,
  IfOk-any,
}
use hub_nfts.Inputs.{Attribute}
use hub_nfts.Messages.{ProtoCreator}
use hub_nfts.Mutations.Common.{
  insert_collection_creator, put_collection_creators, insert_attribute, insert_file,
}
use hub_nfts.Events.Results.{ProcessorError}
use hub_nfts.Events.Imports.{
  SolanaCollectionPayload, ImportedFile, ImportedMetadata, index_collection,
  index_collection_creator, index_attributes, index_files,
}

-- The tables of collections and of their metadata are as they were.
abbrev SameRows : World → World → Type 0
SameRows v w = (w.db.collections ≡ v.db.collections) × (w.db.metadata_jsons ≡ v.db.metadata_jsons)

SameRows-twice : (u v w : World) → SameRows u v → SameRows v w → SameRows u w
SameRows-twice u v w (a, b) (c, d) = (c ∙ a, d ∙ b)

creator-SameRows :
    (env : Env) (id : Uuid) (c : ProtoCreator) (w : World)
    → Wp (λ r v. SameRows w v) (index_collection_creator env id c) w
unfolding index_collection_creator insert_collection_creator
creator-SameRows env id c w =
    ok_or_then _ _ _ (refl, refl)
      λ share e. by_then _ (execute_then _ _ (refl, refl) λ a db f. pure_end _ (kept _ _ f))
  where
    kept :
        (o : Option (List CreatorRow)) (db : Db)
        → put_collection_creators w.db o ≡ some (tt, db)
        → (db.collections ≡ w.db.collections) × (db.metadata_jsons ≡ w.db.metadata_jsons)
    kept none db f = absurd (cc)
    kept (some rows) db f =
        let g = sym (ap (λ p. p.1) (some-injective _ _ f)) in
        (ap (λ d. d.collections) g, ap (λ d. d.metadata_jsons) g)

attribute-SameRows :
    (id : Uuid) (a : Attribute) (w : World)
    → Wp {E = ProcessorError} (λ r v. SameRows w v) (write (insert_attribute id a)) w
unfolding insert_attribute
attribute-SameRows id a w = by_then _ (write_then _ _ (refl, refl) (pure_end _ (refl, refl)))

file-SameRows :
    (id : Uuid) (f : ImportedFile) (w : World)
    → Wp {E = ProcessorError}
        (λ r v. SameRows w v)
        (write (insert_file id (record { uri = some f.uri; file_type = f.mime })))
        w
unfolding insert_file
file-SameRows id f w = by_then _ (write_then _ _ (refl, refl) (pure_end _ (refl, refl)))

-- The loops at the end of the import.
loops-SameRows :
    (env : Env) (of : Uuid) (creators : List ProtoCreator) (id : Uuid) (attributes : List Attribute)
    (files : List ImportedFile) (w : World)
    → Wp
        (λ r v. SameRows w v)
        (do
          each (index_collection_creator env of) creators
          index_attributes id attributes
          index_files id files)
        w
unfolding index_attributes index_files
loops-SameRows env of creators id attributes files w =
    part_then _ _ (λ r v. SameRows w v)
      (each_by SameRows (λ v. (refl, refl)) SameRows-twice _ creators w
        (λ x v. creator-SameRows env of x v))
      (λ v k. k) (λ e v k. k)
      λ a v k.
        part_then _ _ (λ r t. SameRows v t)
          (each_by SameRows (λ t. (refl, refl)) SameRows-twice _ attributes v
            (λ x t. attribute-SameRows id x t))
          (λ t l. SameRows-twice w v t k l) (λ e t l. SameRows-twice w v t k l)
          λ b t l.
            weaken _ (λ r x n. SameRows-twice w v x k (SameRows-twice v t x l n))
              (each_by SameRows (λ t. (refl, refl)) SameRows-twice _ files t
                (λ x t. file-SameRows id x t))

-- The imported rows.
pub record Imported (payload : SolanaCollectionPayload) (id : Uuid) (before after : Db)
    : Type 0 where
  pub is_new : find_by_id collections_table id before ≡ none
  pub row : Collection
  pub found : find_by_id collections_table id after ≡ some row
  pub is_created : row.creation_status ≡ created
  pub on_solana : row.blockchain ≡ solana
  pub metadata : ImportedMetadata
  pub given : payload.metadata ≡ some metadata
  pub json : MetadataJson
  pub json_found : find_by_id metadata_jsons_table id after ≡ some json
  pub same_uri : json.uri ≡ some metadata.uri

rows-Imported :
    (payload : SolanaCollectionPayload) (uuid : Uuid) (before after : Db)
    (metadata : ImportedMetadata)
    → payload.metadata ≡ some metadata
    → (row : Collection) (json : MetadataJson) → row.id ≡ uuid
    → json.id ≡ uuid
    → row.creation_status ≡ created
    → row.blockchain ≡ solana
    → json.uri ≡ some metadata.uri
    → find_by_id collections_table row.id before ≡ none
    → after.collections ≡ row ∷ before.collections
    → after.metadata_jsons ≡ json ∷ before.metadata_jsons
    → Imported payload uuid before after
rows-Imported payload uuid before after metadata m row json i j s b u fresh cs js = record {
  is_new = ap (λ k. find_by_id collections_table k before) (sym i) ∙ fresh;
  row = row;
  found =
      ap (find (has_key collections_table uuid)) cs
      ∙ subst (λ k. find (has_key collections_table k) (row ∷ before.collections) ≡ some row) i
          (find-has_key collections_table row before.collections);
  is_created = s;
  on_solana = b;
  metadata = metadata;
  given = m;
  json = json;
  json_found =
      ap (find (has_key metadata_jsons_table uuid)) js
      ∙ subst
          (λ k. find (has_key metadata_jsons_table k) (json ∷ before.metadata_jsons) ≡ some json) j
          (find-has_key metadata_jsons_table json before.metadata_jsons);
  same_uri = u;
}

-- Where the import of a collection succeeds, the collection was new, and it is in the table
-- afterwards as created on Solana, with the URI of the message in its metadata.
pub index_collection-Imported :
    (id project user : String) (payload : SolanaCollectionPayload) (uuid : Uuid) (w : World)
    → w.env.parse_uuid id ≡ some uuid
    → Wp
        (IfOk (λ u w'. Imported payload uuid w.db w'.db))
        (index_collection id project user payload)
        w
unfolding index_collection
index_collection-Imported id project user payload uuid w parsed = read_env_then _ (
    ok_or_then _ _ _ tt λ metadata m. ok_or_then _ _ _ tt λ collection c. ok_or_then _ _ _ tt λ p _.
      ok_or_then _ _ _ tt λ fee _. ok_or_then _ _ _ tt λ u _. read_clock_then _ (
        insert_then _ _ _ tt λ fresh. insert_then _ _ _ tt λ fresh_json.
          let same : collection ≡ uuid = some-injective _ _ (sym c ∙ parsed) in
          weaken _
            (λ r x n. IfOk-any _ r x (λ _.
              rows-Imported payload uuid w.db x.db metadata m _ _ same same refl refl refl fresh n.0
                n.1))
            (loops-SameRows _ _ payload.creators _ metadata.attributes payload.files _)))

-- The request fails, and the database is as it was.
abbrev pub Refused : World → Result ProcessorError (Unit {0}) → World → Type 0
Refused w (ok _) w' = ⊥
Refused w (err e) w' = w'.db ≡ w.db
Refused w fault w' = w'.db ≡ w.db

-- A collection that is there is not imported again: the message fails, and changes nothing. So an
-- import that failed after its first write is not repaired when the message is delivered again.
pub index_collection-Refused :
    (id project user : String) (payload : SolanaCollectionPayload) (uuid : Uuid) (row : Collection)
    (w : World)
    → w.env.parse_uuid id ≡ some uuid
    → find_by_id collections_table uuid w.db ≡ some row
    → Wp (Refused w) (index_collection id project user payload) w
unfolding index_collection
index_collection-Refused id project user payload uuid row w parsed there = read_env_then _ (
    ok_or_then _ _ _ refl λ metadata _. ok_or_then _ _ _ refl λ collection c.
      ok_or_then _ _ _ refl λ p _. ok_or_then _ _ _ refl λ fee _. ok_or_then _ _ _ refl λ u _.
        read_clock_then _ (
          insert_then _ _ _ refl λ fresh.
            let same : collection ≡ uuid = some-injective _ _ (sym c ∙ parsed) in
            let gone : find_by_id collections_table uuid w.db ≡ none =
              subst (λ k. find_by_id collections_table k w.db ≡ none) same fresh in
            absurd (cc)))
