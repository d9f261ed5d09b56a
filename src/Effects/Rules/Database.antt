-- ===== src/Effects/Rules/Database.antt =====
-- The rules for reads and writes of the database.
use hub_nfts.Prelude.{
  ℕ, ◌≡◌, suc, Option, none, some, ◌∷◌, Bool-cases, inl, inr, Option-cases, update_where,
}
use hub_nfts.Entities.{Uuid}
use hub_nfts.Effects.State.{World, Db}
use hub_nfts.Effects.Monad.{Result, fault, M, ◌>>=◌}
use hub_nfts.Effects.Tables.{Table, insert_row, find_by_id, has_key}
use hub_nfts.Effects.Steps.{tick, query, random_query, execute, insert, update, write}
use hub_nfts.Effects.Rules.Control.{Wp}

module _ {E : Type 0} {A B : Type 0} where
  pub query_then :
      (f : Db → A) (k : A → M E B) {Q : Result E B → World → Type 0} {w : World}
      → Q fault (tick w)
      → Wp Q (k (f w.db)) (tick w)
      → Wp Q (query f >>= k) w
  unfolding ◌>>=◌ query
  query_then f k {w = w} h s = elim (Bool-cases (w.env.fails w.calls)) [
    | inl t ↦ record { holds = rw t h }
    | inr t ↦ record { holds = rw t s.holds }
  ]

  pub random_query_then :
      (f : (ℕ → ℕ) → Db → A) (k : A → M E B) {Q : Result E B → World → Type 0} {w : World}
      → Q fault (tick w)
      → Wp Q (k (f (w.env.random (suc w.calls)) w.db)) (tick w)
      → Wp Q (random_query f >>= k) w
  unfolding ◌>>=◌ random_query
  random_query_then f k {w = w} h s = elim (Bool-cases (w.env.fails w.calls)) [
    | inl t ↦ record { holds = rw t h }
    | inr t ↦ record { holds = rw t s.holds }
  ]

  pub execute_then :
      (f : Db → Option (A × Db)) (k : A → M E B) {Q : Result E B → World → Type 0} {w : World}
      → Q fault (tick w)
      → ((a : A) (db : Db) → f w.db ≡ some (a, db) → Wp Q (k a) (record (tick w) { db = db }))
      → Wp Q (execute f >>= k) w
  unfolding ◌>>=◌ execute
  execute_then f k {w = w} h s = elim (Bool-cases (w.env.fails w.calls)) [
    | inl e ↦ record { holds = rw e h }
    | inr e ↦ elim (Option-cases (f w.db)) [
      | inl r ↦ record { holds = rw (e, r) h }
      | inr ((a, db), r) ↦ record { holds = rw (e, r) (s a db r).holds }
    ]
  ]

  pub insert_then :
      (t : Table A) (row : Uuid → A) (k : A → M E B) {Q : Result E B → World → Type 0} {w : World}
      → Q fault (tick w)
      → (let new = row (w.env.fresh (suc w.calls)) in
          find_by_id t (t.key new) w.db ≡ none
          → Wp Q (k new) (record (tick w) { db = t.put (new ∷ t.rows w.db) w.db }))
      → Wp Q (insert t row >>= k) w
  unfolding ◌>>=◌ insert insert_row
  insert_then t row k {w = w} h s = elim (Bool-cases (w.env.fails w.calls)) [
    | inl e ↦ record { holds = rw e h }
    | inr e ↦ elim (Option-cases (find_by_id t (t.key (row (w.env.fresh (suc w.calls)))) w.db)) [
      | inl r ↦ record { holds = rw (e, r) (s r).holds }
      | inr (x, r) ↦ record { holds = rw (e, r) h }
    ]
  ]

  pub update_then :
      (t : Table A) (id : Uuid) (f : A → A) (k : A → M E B) {Q : Result E B → World → Type 0}
      {w : World}
      → Q fault (tick w)
      → ((row : A)
          → find_by_id t id w.db ≡ some row
          → Wp Q
              (k (f row))
              (record (tick w) { db = t.put (update_where (has_key t id) f (t.rows w.db)) w.db }))
      → Wp Q (update t id f >>= k) w
  unfolding ◌>>=◌ update
  update_then t id f k {w = w} h s = elim (Bool-cases (w.env.fails w.calls)) [
    | inl e ↦ record { holds = rw e h }
    | inr e ↦ elim (Option-cases (find_by_id t id w.db)) [
      | inl r ↦ record { holds = rw (e, r) h }
      | inr (row, r) ↦ record { holds = rw (e, r) (s row r).holds }
    ]
  ]

module _ {E : Type 0} {B : Type 0} where
  pub write_then :
      (f : Db → Db) (k : Unit {0} → M E B) {Q : Result E B → World → Type 0} {w : World}
      → Q fault (tick w)
      → Wp Q (k tt) (record (tick w) { db = f w.db })
      → Wp Q (write f >>= k) w
  unfolding ◌>>=◌ write
  write_then f k {w = w} h s = elim (Bool-cases (w.env.fails w.calls)) [
    | inl t ↦ record { holds = rw t h }
    | inr t ↦ record { holds = rw t s.holds }
  ]
