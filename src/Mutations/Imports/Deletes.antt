-- ===== src/Mutations/Imports/Deletes.antt =====
-- What the removal of an imported collection deletes of the metadata.
use hub_nfts.Prelude.{
  ◌≡◌, refl, sym, ap, ◌∙◌, subst, inl, inr, Bool, true, false, not, ◌||◌, Option, none, some, List,
  [], ◌∷◌, ◌==◌, find, select, is_some, Bool-cases, ==_iff, arith, if◌then◌else◌,
}
use hub_nfts.Entities.{Uuid, MetadataJson, CollectionMint}
use hub_nfts.Effects.{
  World, Db, Wp, IfOk, find_by_id, find_by_id_key, metadata_jsons_table, write_then, part_then,
  pure_end, by_then, each, write,
}
use hub_nfts.Errors.{Error}
use hub_nfts.Mutations.Patches.{delete_metadata}
use hub_nfts.Mutations.Imports.{delete_json, is_among}

-- A mint with this id is among these.
abbrev pub is_named : List CollectionMint → Uuid → Bool
is_named mints k = is_some (find (λ m. m.id == k) mints)

-- The metadata with this key is as it was, with its attributes and files.
pub record SameMetadata (k : Uuid) (before after : Db) : Type 0 where
  pub json : find_by_id metadata_jsons_table k after ≡ find_by_id metadata_jsons_table k before
  pub attributes :
      select (λ a. a.metadata_json_id == k) after.metadata_attributes
      ≡ select (λ a. a.metadata_json_id == k) before.metadata_attributes
  pub files :
      select (λ f. f.metadata_json_id == k) after.metadata_files
      ≡ select (λ f. f.metadata_json_id == k) before.metadata_files

-- Only metadata is deleted, and just that with the keys of `p`.
pub record Deletes (p : Uuid → Bool) (before after : Db) : Type 0 where
  pub collections : after.collections ≡ before.collections
  pub drops : after.drops ≡ before.drops
  pub mints : after.mints ≡ before.mints
  pub creators : after.collection_creators ≡ before.collection_creators
  pub gone : (k : Uuid) → p k ≡ true → find_by_id metadata_jsons_table k after ≡ none
  pub kept : (k : Uuid) → p k ≡ false → SameMetadata k before after

same_metadata : (k : Uuid) (db : Db) → SameMetadata k db db
same_metadata k db = record { json = refl; attributes = refl; files = refl }

nothing-Deletes : (db : Db) → Deletes (λ k. false) db db
nothing-Deletes db = record {
  collections = refl;
  drops = refl;
  mints = refl;
  creators = refl;
  gone = λ k e. absurd (cc);
  kept = λ k e. same_metadata k db;
}

pub both-Deletes :
    (p q : Uuid → Bool) (a b c : Db) → Deletes p a b → Deletes q b c → Deletes (λ k. p k || q k) a c
both-Deletes p q a b c x y = record {
  collections = y.collections ∙ x.collections;
  drops = y.drops ∙ x.drops;
  mints = y.mints ∙ x.mints;
  creators = y.creators ∙ x.creators;
  gone = λ k e. elim (Bool-cases (q k)) [
    | inl t ↦ y.gone k t
    | inr t ↦ (y.kept k t).json ∙ x.gone k (ground arith)
  ];
  kept = λ k e.
      let u = x.kept k (ground arith) in
      let v = y.kept k (ground arith) in
      record {
        json = v.json ∙ u.json;
        attributes = v.attributes ∙ u.attributes;
        files = v.files ∙ u.files;
      };
}

find-select-not :
    (id : Uuid) (xs : List MetadataJson)
    → find (λ r. r.id == id) (select (λ r. not (r.id == id)) xs) ≡ none
find-select-not id [] = refl
find-select-not id (x ∷ xs) = elim (Bool-cases (x.id == id)) [
  | inl t ↦ rw t (find-select-not id xs)
  | inr t ↦ rw (t, t) (find-select-not id xs)
]

find-select-other :
    (k id : Uuid) (xs : List MetadataJson)
    → (k == id) ≡ false
    → find (λ r. r.id == k) (select (λ r. not (r.id == id)) xs) ≡ find (λ r. r.id == k) xs
find-select-other k id [] e = refl
find-select-other k id (x ∷ xs) e = ground (arith, find-select-other k id xs e)

-- What is selected twice.
select-select :
    {A : Type 0} (p q : A → Bool) (xs : List A)
    → ((x : A) → p x ≡ true → q x ≡ true)
    → select p (select q xs) ≡ select p xs
select-select p q [] h = refl
select-select p q (x ∷ xs) h = elim (Bool-cases (q x)) [
  | inl t ↦ rw t (ap (λ l. if p x then x ∷ l else l) (select-select p q xs h))
  | inr t ↦ elim (Bool-cases (p x)) [
    | inl u ↦ let e = h x u in absurd (cc)
    | inr u ↦ rw (t, u) (select-select p q xs h)
  ]
]

apart : (k id x : Uuid) → (k == id) ≡ false → (x == k) ≡ true → not (x == id) ≡ true
apart k id x e t = ground arith

delete_metadata-Deletes : (id : Uuid) (db : Db) → Deletes (λ k. k == id) db (delete_metadata id db)
unfolding delete_metadata
delete_metadata-Deletes id db = record {
  collections = refl;
  drops = refl;
  mints = refl;
  creators = refl;
  gone = λ k e.
      subst (λ j. find_by_id metadata_jsons_table k (delete_metadata j db) ≡ none)
        ((==_iff _ _).0 e) (find-select-not k db.metadata_jsons);
  kept = λ k e. record {
    json = find-select-other k id db.metadata_jsons e;
    attributes = select-select _ _ db.metadata_attributes (λ a t. apart k id _ e t);
    files = select-select _ _ db.metadata_files (λ a t. apart k id _ e t);
  };
}

-- A deletion where nothing is there.
pub delete_json-Deletes :
    (id : Uuid) (o : Option MetadataJson) (w : World)
    → find_by_id metadata_jsons_table id w.db ≡ o
    → Wp (IfOk (λ a v. Deletes (λ k. k == id) w.db v.db)) (delete_json o) w
unfolding delete_json
delete_json-Deletes id none w e = pure_end _ (record {
  collections = refl;
  drops = refl;
  mints = refl;
  creators = refl;
  gone =
      λ k t. subst (λ j. find_by_id metadata_jsons_table j w.db ≡ none) (sym ((==_iff _ _).0 t)) e;
  kept = λ k t. same_metadata k w.db;
})
delete_json-Deletes id (some json) w e = by_then _ (
    write_then _ _ tt (
      pure_end _ (
        subst (λ j. Deletes (λ k. k == j) w.db (delete_metadata json.id w.db))
          (find_by_id_key metadata_jsons_table id w.db e) (delete_metadata-Deletes json.id w.db))))

abbrev pub has_row : List MetadataJson → Uuid → Bool
has_row js k = is_some (find (λ j. j.id == k) js)

has_row-cons :
    (x : MetadataJson) (xs : List MetadataJson) (k : Uuid)
    → (k == x.id || has_row xs k) ≡ has_row (x ∷ xs) k
has_row-cons x xs k = ground arith

with_keys :
    {a b : Db} (p q : Uuid → Bool) → ((k : Uuid) → p k ≡ q k) → Deletes p a b → Deletes q a b
with_keys {a} {b} p q h d = record {
  collections = d.collections;
  drops = d.drops;
  mints = d.mints;
  creators = d.creators;
  gone = λ k e. d.gone k (h k ∙ e);
  kept = λ k e. d.kept k (h k ∙ e);
}

pub delete_each-Deletes :
    (js : List MetadataJson) (w : World)
    → Wp {E = Error}
        (IfOk (λ a v. Deletes (has_row js) w.db v.db))
        (each (λ json. write (delete_metadata json.id)) js)
        w
unfolding each
delete_each-Deletes [] w = record { holds = nothing-Deletes w.db }
delete_each-Deletes (x ∷ xs) w = record {
  holds =
      (write_then (delete_metadata x.id) (λ _. each (λ json. write (delete_metadata json.id)) xs)
        {Q = IfOk (λ a v. Deletes (has_row (x ∷ xs)) w.db v.db)} tt
        (by_then _ (
          part_then _ _ _ (delete_each-Deletes xs _) (λ v k. tt) (λ e v k. tt)
            λ a v k. pure_end _ (
              with_keys _ _ (has_row-cons x xs)
                (both-Deletes _ _ _ _ _ (delete_metadata-Deletes x.id w.db) k))))).holds;
}

-- The rows of these mints: of those that are named, each.
pub find-select-named :
    (mints : List CollectionMint) (k : Uuid) (l : List MetadataJson)
    → find (λ r. r.id == k) (select (is_among mints) l)
      ≡ (if is_named mints k then find (λ r. r.id == k) l else none)
find-select-named mints k [] = ground arith
find-select-named mints k (x ∷ xs) = elim (Bool-cases (x.id == k)) [
  | inl t ↦
      let e : is_among mints x ≡ is_named mints k = ap (is_named mints) ((==_iff _ _).0 t) in
      elim (Bool-cases (is_named mints k)) [
        | inl u ↦ let f = e ∙ u in rw (f, t, u) refl
        | inr u ↦ let f = e ∙ u in rw (f, u) (find-select-named mints k xs ∙ rw u refl)
      ]
  | inr t ↦ elim (Bool-cases (is_among mints x)) [
    | inl u ↦ rw (u, t) (find-select-named mints k xs)
    | inr u ↦ rw (u, t) (find-select-named mints k xs)
  ]
]
