-- ===== src/Mutations/Common/Side.antt =====
-- The parts of handlers that write only metadata and creators: what they leave alone.
use hub_nfts.Prelude.{
  ◌≡◌, refl, sym, ◌∙◌, ap, subst, Option, none, some, List, [], ◌∷◌, Bool-cases, Option-cases, inl,
  inr, ℕ, suc,
}
use hub_nfts.Entities.{Uuid, MetadataJson, MetadataAttribute, MetadataFile, CreatorRow}
use hub_nfts.Effects.{
  World, Env, Db, M, Result, err, fault, ◌>>=◌, Wp, pure, execute, write, each, tick, part_then,
}
use hub_nfts.Inputs.{property_files, Creator, MetadataJsonInput, File}
use hub_nfts.Mutations.Common.Writes.{
  save_metadata, save_files, insert_mint_creators, insert_collection_creators,
  insert_each_mint_creator, insert_each_collection_creator, insert_mint_creator,
  insert_collection_creator, put_collection_creators, put_mint_creators, upsert_metadata,
  clear_attributes, insert_attribute, clear_files, insert_file,
}

-- The tables of metadata and creators.
pub record SideTables : Type 0 where
  pub jsons : List MetadataJson
  pub attributes : List MetadataAttribute
  pub files : List MetadataFile
  pub collection_creators : List CreatorRow
  pub mint_creators : List CreatorRow

abbrev pub side_db : Db → SideTables → Db
side_db db s = record db {
  metadata_jsons = s.jsons;
  metadata_attributes = s.attributes;
  metadata_files = s.files;
  collection_creators = s.collection_creators;
  mint_creators = s.mint_creators;
}

-- `w` with other side tables, after some calls.
abbrev pub side : World → SideTables → ℕ → World
side w s calls = record w { db = side_db w.db s; calls = calls }

abbrev pub tables : Db → SideTables
tables db = record {
  jsons = db.metadata_jsons;
  attributes = db.metadata_attributes;
  files = db.metadata_files;
  collection_creators = db.collection_creators;
  mint_creators = db.mint_creators;
}

pub record IsSide (w w' : World) : Type 0 where
  pub now : SideTables
  pub calls : ℕ
  pub same : w' ≡ side w now calls

pub here : (w : World) → IsSide w w
here w = record { now = tables w.db; calls = w.calls; same = refl }

pub settled : (w w' : World) → w' ≡ side w (tables w'.db) w'.calls → IsSide w w'
settled w w' e = record { now = tables w'.db; calls = w'.calls; same = e }

-- A state that differs in side tables alone, and then again.
pub further : {u v w : World} → IsSide u v → IsSide v w → IsSide u w
further {u} {v} {w} a b = record {
  now = b.now;
  calls = b.calls;
  same = b.same ∙ ap (λ x. side x b.now b.calls) a.same;
}

module _ {E A B : Type 0} where
  -- The rule for such a part of a handler.
  pub side_then :
      (m : M E A) (k : A → M E B) {Q : Result E B → World → Type 0} {w : World}
      → Wp (λ r w'. IsSide w w') m w
      → ((s : SideTables) (c : ℕ) → Q fault (side w s c))
      → ((e : E) (s : SideTables) (c : ℕ) → Q (err e) (side w s c))
      → ((a : A) (s : SideTables) (c : ℕ) → Wp Q (k a) (side w s c))
      → Wp Q (m >>= k) w
  side_then m k {Q} {w} p h g s =
      part_then m k (λ r w'. IsSide w w') p (λ w' x. subst (Q fault) (sym x.same) (h x.now x.calls))
        (λ e w' x. subst (Q (err e)) (sym x.same) (g e x.now x.calls))
        (λ a w' x. subst (Wp Q (k a)) (sym x.same) (s a x.now x.calls))

module _ {E : Type 0} where
  pub chain :
      {A B : Type 0} (m : M E A) (f : A → M E B) (w : World)
      → Wp (λ r w'. IsSide w w') m w
      → ((a : A) (w' : World) → Wp (λ r w''. IsSide w' w'') (f a) w')
      → Wp (λ r w'. IsSide w w') (m >>= f) w
  chain m f w p q =
      part_then m f (λ r w'. IsSide w w') p (λ w' x. x) (λ e w' x. x)
        (λ a w' x. record { holds = further x (q a w').holds })

  execute-IsSide :
      {A : Type 0} (f : Db → Option (A × Db)) (w : World)
      → ((a : A) (db : Db) → f w.db ≡ some (a, db) → (s : SideTables) × (db ≡ side_db w.db s))
      → Wp {E = E} (λ r w'. IsSide w w') (execute f) w
  unfolding execute
  execute-IsSide f w touches = elim (Bool-cases (w.env.fails w.calls)) [
    | inl t ↦ record {
      holds = rw t (record { now = tables w.db; calls = suc w.calls; same = refl });
    }
    | inr t ↦ elim (Option-cases (f w.db)) [
      | inl r ↦ record {
        holds = rw (t, r) (record { now = tables w.db; calls = suc w.calls; same = refl });
      }
      | inr ((a, db), r) ↦
          let (s, e) = touches a db r in
          record {
            holds =
                rw (t, r)
                  (record {
                    now = s;
                    calls = suc w.calls;
                    same = ap (λ d. record (tick w) { db = d }) e;
                  });
          }
    ]
  ]

  pub write-IsSide :
      (f : Db → Db) (w : World) (s : SideTables)
      → f w.db ≡ side_db w.db s
      → Wp {E = E} (λ r w'. IsSide w w') (write f) w
  unfolding write
  write-IsSide f w s e = execute-IsSide (λ db. some (tt, f db)) w (λ a db h. (s, cc))

  each-IsSide :
      {A : Type 0} (body : A → M E (Unit {0}))
      → ((a : A) (w : World) → Wp (λ r w'. IsSide w w') (body a) w)
      → (xs : List A) (w : World) → Wp (λ r w'. IsSide w w') (each body xs) w
  unfolding each
  each-IsSide body h [] w = record { holds = here w }
  each-IsSide body h (x ∷ xs) w = record {
    holds = (chain (body x) (λ _. each body xs) w (h x w) (λ _ w'. each-IsSide body h xs w')).holds;
  }

put_collection_creators-side :
    (db : Db) (o : Option (List CreatorRow)) {a : Unit {0}} {new : Db}
    → put_collection_creators db o ≡ some (a, new)
    → (s : SideTables) × (new ≡ side_db db s)
put_collection_creators-side db none e = absurd (cc)
put_collection_creators-side db (some rows) e =
    (record (tables db) { collection_creators = rows }, cc)

put_mint_creators-side :
    (db : Db) (o : Option (List CreatorRow)) {a : Unit {0}} {new : Db}
    → put_mint_creators db o ≡ some (a, new)
    → (s : SideTables) × (new ≡ side_db db s)
put_mint_creators-side db none e = absurd (cc)
put_mint_creators-side db (some rows) e = (record (tables db) { mint_creators = rows }, cc)

module _ {E : Type 0} where
  pub insert_collection_creators-IsSide :
      (rows : List CreatorRow) (w : World)
      → Wp {E = E} (λ r w'. IsSide w w') (insert_collection_creators rows) w
  unfolding insert_collection_creators pure
  insert_collection_creators-IsSide [] w = record { holds = here w }
  insert_collection_creators-IsSide (r ∷ rs) w =
      execute-IsSide _ w (λ a db e. put_collection_creators-side w.db _ e)

  pub insert_mint_creators-IsSide :
      (rows : List CreatorRow) (w : World)
      → Wp {E = E} (λ r w'. IsSide w w') (insert_mint_creators rows) w
  unfolding insert_mint_creators pure
  insert_mint_creators-IsSide [] w = record { holds = here w }
  insert_mint_creators-IsSide (r ∷ rs) w =
      execute-IsSide _ w (λ a db e. put_mint_creators-side w.db _ e)

  pub insert_each_collection_creator-IsSide :
      (env : Env) (of : Uuid) (creators : List Creator) (w : World)
      → Wp {E = E} (λ r w'. IsSide w w') (insert_each_collection_creator env of creators) w
  unfolding insert_each_collection_creator insert_collection_creator
  insert_each_collection_creator-IsSide env of creators w =
      each-IsSide _ (λ c w'. execute-IsSide _ w' (λ a db e. put_collection_creators-side w'.db _ e))
        creators w

  pub insert_each_mint_creator-IsSide :
      (env : Env) (of : Uuid) (creators : List Creator) (w : World)
      → Wp {E = E} (λ r w'. IsSide w w') (insert_each_mint_creator env of creators) w
  unfolding insert_each_mint_creator insert_mint_creator
  insert_each_mint_creator-IsSide env of creators w =
      each-IsSide _ (λ c w'. execute-IsSide _ w' (λ a db e. put_mint_creators-side w'.db _ e))
        creators w

  save_files-IsSide :
      (id : Uuid) (files : Option (List File)) (w : World)
      → Wp {E = E} (λ r w'. IsSide w w') (save_files id files) w
  unfolding save_files clear_files insert_file pure
  save_files-IsSide id none w = record { holds = here w }
  save_files-IsSide id (some files) w =
      chain _ _ w (write-IsSide _ w (record (tables w.db) { files = _ }) refl) (λ _ w'.
        each-IsSide _ (λ f u. write-IsSide _ u (record (tables u.db) { files = _ }) refl) files w')

  pub save_metadata-IsSide :
      (id : Uuid) (json : MetadataJsonInput) (w : World)
      → Wp {E = E} (λ r w'. IsSide w w') (save_metadata id json) w
  unfolding save_metadata upsert_metadata clear_attributes insert_attribute
  save_metadata-IsSide id json w =
      chain _ _ w (write-IsSide _ w (record (tables w.db) { jsons = _ }) refl) λ _ u.
        chain _ _ u (write-IsSide _ u (record (tables u.db) { attributes = _ }) refl) λ _ v.
          chain _ _ v
            (each-IsSide _ (λ a x. write-IsSide _ x (record (tables x.db) { attributes = _ }) refl)
              json.attributes v)
            (λ _ x. save_files-IsSide id (property_files json.properties) x)
