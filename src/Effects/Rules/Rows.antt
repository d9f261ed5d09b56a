-- ===== src/Effects/Rules/Rows.antt =====
-- Statements about a run that succeeds, and about a row before and after an update.
use hub_nfts.Prelude.{
  ◌≡◌, ◌∙◌, ap, sym, subst, some, find, update_where, find-update_where, ◌==◌, find_sound, ==_iff,
  List, ◌∷◌, refl, arith, Bool-cases, inl, inr,
}
use hub_nfts.Entities.{Uuid}
use hub_nfts.Effects.State.{World, Db}
use hub_nfts.Effects.Monad.{Result, ok, err, fault}
use hub_nfts.Effects.Tables.{Table, find_by_id, has_key}

-- `ok`
abbrev pub Succeeds : {E A : Type 0} → Result E A → Type 0
Succeeds (ok a) = Unit
Succeeds (err e) = ⊥
Succeeds fault = ⊥

-- What holds of the state where the run succeeds.
abbrev pub IfOk : {E A : Type 0} → (A → World → Type 0) → Result E A → World → Type 0
IfOk P (ok a) w' = P a w'
IfOk P (err e) w' = Unit
IfOk P fault w' = Unit

-- What holds of every success.
pub IfOk-any :
    {E A : Type 0} (P : A → World → Type 0) (r : Result E A) (w : World)
    → ((a : A) → P a w)
    → IfOk P r w
IfOk-any P (ok a) w h = h a
IfOk-any P (err e) w h = tt
IfOk-any P fault w h = tt

-- A row of a table, before and after.
pub record Becomes {A : Type 0} (t : Table A) (id : Uuid) (f : A → A) (before after : Db)
    : Type 0 where
  pub row : A
  pub was : find_by_id t id before ≡ some row
  pub is_now : find_by_id t id after ≡ some (f row)

-- The row of an update that is read in a state with the same database.
pub becomes :
    {A : Type 0} (t : Table A) (id : Uuid) (f : A → A) (before read after : Db) {row : A}
    → read ≡ before
    → ((y : A) → t.key (f y) ≡ t.key y)
    → find_by_id t id read ≡ some row
    → t.rows after ≡ update_where (has_key t id) f (t.rows read)
    → Becomes t id f before after
becomes t id f before read after same key was e = record {
  row = _;
  was = ap (find_by_id t id) (sym same) ∙ was;
  is_now =
      ap (find (has_key t id)) e
      ∙ find-update_where (has_key t id) f (t.rows read) (λ y. ap (λ k. k == id) (key y)) was;
}

-- The same row under an equal key.
pub Becomes-at :
    {A : Type 0} {t : Table A} {id key : Uuid} {f : A → A} {before after : Db}
    → id ≡ key
    → Becomes t id f before after
    → Becomes t key f before after
Becomes-at {t = t} {f = f} {before} {after} e b = subst (λ k. Becomes t k f before after) e b

-- The row that is found has the key.
pub find_by_id_key :
    {A : Type 0} (t : Table A) (id : Uuid) (db : Db) {row : A}
    → find_by_id t id db ≡ some row
    → t.key row ≡ id
find_by_id_key t id db e = (==_iff _ _).0 (find_sound (has_key t id) (t.rows db) e)

-- The row that comes first is found by its key.
pub find-has_key :
    {A : Type 0} (t : Table A) (row : A) (rows : List A)
    → find (has_key t (t.key row)) (row ∷ rows) ≡ some row
find-has_key t row rows = elim (Bool-cases (t.key row == t.key row)) [
  | inl e ↦ rw e refl
  | inr e ↦ absurd (ground arith)
]
