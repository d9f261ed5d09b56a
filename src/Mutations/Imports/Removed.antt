-- ===== src/Mutations/Imports/Removed.antt =====
-- What the request for an import leaves of a collection that was imported before.
use hub_nfts.Prelude.{
  ◌≡◌, refl, sym, ap, ◌∙◌, ◌⊎◌, inl, inr, Bool, true, false, not, ◌||◌, Option, none, some, List,
  ◌==◌, find, select, is_some, Bool-cases,
}
use hub_nfts.Entities.{Uuid, CreationStatus, Collection, CollectionMint, MetadataJson}
use hub_nfts.Effects.{
  World, Db, Wp, Result, ok, err, fault, IfOk, find_by_id, metadata_jsons_table, ok_or_then,
  query_then, read_env_then, lift_then, connect_then, write_then, part_then, atomically_then,
  pure_end, by_then, send_then, new_uuid_then,
}
use hub_nfts.Errors.{Error}
use hub_nfts.Inputs.{Headers}
use hub_nfts.Mutations.Imports.{
  ImportCollectionInput, import_solana_collection, remove_found, remove_collection, is_among,
  delete_collection, imported_before,
}
use hub_nfts.Mutations.Imports.Deletes.{
  is_named, SameMetadata, Deletes, both-Deletes, delete_json-Deletes, has_row, delete_each-Deletes,
  find-select-named,
}

-- The metadata with this key is the collection's, or that of one of its mints.
abbrev pub is_removed : Uuid → Db → Uuid → Bool
is_removed id db k = k == id || is_named (select (λ m. m.collection_id == id) db.mints) k

-- The collection is gone, with its drops, mints, creators, its metadata and that of its mints; other
-- collections, and their drops, mints, creators and metadata, are as they were.
pub record Removed (id : Uuid) (before after : Db) : Type 0 where
  pub collections : after.collections ≡ select (λ c. not (c.id == id)) before.collections
  pub drops : after.drops ≡ select (λ d. not (d.collection_id == id)) before.drops
  pub mints : after.mints ≡ select (λ m. not (m.collection_id == id)) before.mints
  pub creators :
      after.collection_creators ≡ select (λ c. not (c.of == id)) before.collection_creators
  pub no_metadata :
      (k : Uuid) → is_removed id before k ≡ true → find_by_id metadata_jsons_table k after ≡ none
  pub other_metadata : (k : Uuid) → is_removed id before k ≡ false → SameMetadata k before after

is_some-none : {A : Type 0} (o : Option A) → is_some o ≡ false → o ≡ none
is_some-none none e = refl
is_some-none (some a) e = absurd (cc)

-- The metadata that the removal deletes: the collection's, and then that of the mints.
module _ (id : Uuid) (before between after : Db) where
  abbrev mints_of : List CollectionMint
  mints_of = select (λ m. m.collection_id == id) before.mints

  abbrev jsons_of : List MetadataJson
  jsons_of = select (is_among mints_of) between.metadata_jsons

  rows_named :
      (k : Uuid)
      → is_named mints_of k ≡ true
      → has_row jsons_of k ≡ false
      → find_by_id metadata_jsons_table k between ≡ none
  rows_named k e f =
      let n = find-select-named mints_of k between.metadata_jsons in
      let m : find (λ r. r.id == k) jsons_of ≡ find_by_id metadata_jsons_table k between =
        rw e at n in
      sym m ∙ is_some-none _ f

  rows_unnamed : (k : Uuid) → is_named mints_of k ≡ false → has_row jsons_of k ≡ false
  rows_unnamed k e =
      let n = find-select-named mints_of k between.metadata_jsons in
      let m : find (λ r. r.id == k) jsons_of ≡ none = rw e at n in ap is_some m

  removed_metadata :
      Deletes (λ k. k == id) before between
      → Deletes (has_row jsons_of) between after
      → Deletes (is_removed id before) before after
  removed_metadata x y =
      let all = both-Deletes _ _ _ _ _ x y in
      record {
        collections = all.collections;
        drops = all.drops;
        mints = all.mints;
        creators = all.creators;
        gone = λ k e. elim (Bool-cases (k == id)) [
          | inl t ↦ all.gone k (rw t refl)
          | inr t ↦ elim (Bool-cases (has_row jsons_of k)) [
            | inl u ↦ all.gone k (rw (t, u) refl)
            | inr u ↦ (y.kept k u).json ∙ rows_named k (rw t at e) u
          ]
        ];
        kept = λ k e. elim (Bool-cases (k == id)) [
          | inl t ↦ let f = rw t at e in absurd (cc)
          | inr t ↦ all.kept k (rw (t, rows_unnamed k (rw t at e)) refl)
        ];
      }

remove_collection-Removed :
    (id : Uuid) (w : World) → Wp (IfOk (λ a v. Removed id w.db v.db)) (remove_collection id) w
unfolding remove_collection delete_collection
remove_collection-Removed id w = query_then _ _ tt (
    query_then _ _ tt (
      part_then _ _ (IfOk (λ a v. Deletes (λ k. k == id) w.db v.db))
        (delete_json-Deletes id _ _ refl) (λ v k. tt) (λ e v k. tt)
        λ a v first. query_then _ _ tt (
          part_then _ _ _ (delete_each-Deletes _ _) (λ u k. tt) (λ e u k. tt)
            λ b u rest. by_then _ (
              write_then _ _ tt (
                pure_end _ (
                  let all = removed_metadata id w.db v.db u.db first rest in
                  record {
                    collections = ap (select (λ c. not (c.id == id))) all.collections;
                    drops = ap (select (λ d. not (d.collection_id == id))) all.drops;
                    mints = ap (select (λ m. not (m.collection_id == id))) all.mints;
                    creators = ap (select (λ c. not (c.of == id))) all.creators;
                    no_metadata = all.gone;
                    other_metadata = λ k e.
                        let same = all.kept k e in
                        record {
                          json = same.json;
                          attributes = same.attributes;
                          files = same.files;
                        };
                  }))))))

-- A collection that was there is removed.
abbrev pub Removes : Option Collection → Db → Db → Type 0
Removes o before after =
    ((o ≡ none) × (after ≡ before)) ⊎ ((c : Collection) × (o ≡ some c) × Removed c.id before after)

abbrev RemovesOrKeeps : Option Collection → World → Result Error (Unit {0}) → World → Type 0
RemovesOrKeeps o w (ok _) v = Removes o w.db v.db
RemovesOrKeeps o w (err e) v = v.db ≡ w.db
RemovesOrKeeps o w fault v = v.db ≡ w.db

remove_found-RemovesOrKeeps :
    (o : Option Collection) (w : World) → Wp (RemovesOrKeeps o w) (remove_found o) w
unfolding remove_found
remove_found-RemovesOrKeeps none w = pure_end _ (inl (refl, refl))
remove_found-RemovesOrKeeps (some c) w = connect_then _ refl (
    by_then _ (
      atomically_then _ _ (IfOk (λ a v. Removed c.id w.db v.db)) (remove_collection-Removed c.id _)
        (λ v k. refl) (λ e v k. refl) (λ a v k. refl) (λ a v k. pure_end _ (inr (c, refl, k)))))

-- The outcomes of a request for an import.
abbrev pub ImportOutcome : Option Collection → World → Result Error CreationStatus → World → Type 0
ImportOutcome o w (ok _) v = Removes o w.db v.db
ImportOutcome o w (err e) v = v.db ≡ w.db
ImportOutcome o w fault v = (v.db ≡ w.db) ⊎ Removes o w.db v.db

-- A request for an import that succeeds removes the collection of the project with the address,
-- where there is one, with its drops, mints and creators, its metadata and that of its mints; other
-- collections, and their drops, mints, creators and metadata (with attributes and files), are as
-- they were, and where there is no such collection so is the whole database. An error leaves the
-- database as it was. The failure of a service does one or the other: the removal is committed
-- before the event is sent.
pub import_solana_collection-ImportOutcome :
    (headers : Headers) (input : ImportCollectionInput) (w : World)
    → Wp (ImportOutcome (imported_before input w.db) w) (import_solana_collection headers input) w
unfolding import_solana_collection
import_solana_collection-ImportOutcome headers input w = ok_or_then _ _ _ refl λ user _.
    read_env_then _ (
      lift_then _ _ (λ e _. refl) (inl refl)
        λ _ _. query_then _ _ (inl refl) (
          part_then _ _ (RemovesOrKeeps (imported_before input w.db) w)
            (remove_found-RemovesOrKeeps _ _) (λ v k. inl k) (λ e v k. k)
            λ a v k. new_uuid_then _ (send_then _ _ _ (inr k) (pure_end _ k))))
