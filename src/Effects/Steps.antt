-- ===== src/Effects/Steps.antt =====
-- The calls of services. Each counts as one call and may fail; a call that fails does nothing.
use hub_nfts.Prelude.{
  ℕ, suc, Bool, false, not, Option, none, some, List, [], ◌∷◌, ◌==◌, if◌then◌else◌, select, find,
}
use hub_nfts.Entities.{Uuid, Time, Action, Blockchain}
use hub_nfts.Messages.{NftEvent, NftEventKey}
use hub_nfts.Effects.State.{World, Env, Db, CacheKey, total_mints, supply}
use hub_nfts.Effects.Monad.{Result, ok, err, fault, M, ◌>>=◌, ◌>>◌}
use hub_nfts.Effects.Tables.{Table, insert_row, update_row}

abbrev pub tick : World → World
tick w = record w { calls = suc w.calls }

abbrev pub rolled_back : World → World → World
rolled_back before after = record after { db = before.db }

abbrev stored : {A : Type 0} → World → Option (A × Db) → Option (A × World)
stored w none = none
stored w (some (a, db)) = some (a, record w { db = db })

abbrev with_row : {A : Type 0} → A → Option Db → Option (A × Db)
with_row row none = none
with_row row (some db) = some (row, db)

abbrev pub same_key : CacheKey → CacheKey → Bool
same_key (total_mints a) (total_mints b) = a == b
same_key (supply a) (supply b) = a == b
same_key _ _ = false

abbrev pub entry_value : Option (CacheKey × ℕ) → Option ℕ
entry_value none = none
entry_value (some (key, value)) = some value

module _ {E : Type 0} where
  abbrev served : {A : Type 0} → Option (A × World) → World → Result E A × World
  served none w = (fault, w)
  served (some (a, w')) w = (ok a, w')

  -- One call: `none` stands for a request that the service refuses.
  unfoldable pub call : {A : Type 0} → (World → Option (A × World)) → M E A
  call f w = if w.env.fails w.calls then (fault, tick w) else served (f (tick w)) (tick w)

  -- Opening a connection, and `begin`.
  unfoldable pub connect : M E (Unit {0})
  unfolding call
  connect = call (λ w. some (tt, w))

  unfoldable pub query : {A : Type 0} → (Db → A) → M E A
  unfolding call
  query f = call (λ w. some (f w.db, w))

  -- A read with `ORDER BY random()`.
  unfoldable pub random_query : {A : Type 0} → ((ℕ → ℕ) → Db → A) → M E A
  unfolding call
  random_query f = call (λ w. some (f (w.env.random w.calls) w.db, w))

  unfoldable pub execute : {A : Type 0} → (Db → Option (A × Db)) → M E A
  unfolding call
  execute f = call (λ w. stored w (f w.db))

  -- `insert`: the database chooses the id.
  unfoldable pub insert : {A : Type 0} → Table A → (Uuid → A) → M E A
  unfolding call insert_row
  insert t row =
      call (λ w.
        let new = row (w.env.fresh w.calls) in stored w (with_row new (insert_row t new w.db)))

  -- `update`: the columns that `f` sets.
  unfoldable pub update : {A : Type 0} → Table A → Uuid → (A → A) → M E A
  unfolding execute update_row
  update t id f = execute (update_row t id f)

  -- `delete_many`, and other writes that the database does not refuse.
  unfoldable pub write : (Db → Db) → M E (Unit {0})
  unfolding execute
  write f = execute (λ db. some (tt, f db))

  -- `Utc::now()` does not fail.
  unfoldable pub read_clock : M E Time
  read_clock w = (ok (w.env.clock w.calls), tick w)

  -- `Uuid::new_v4()`
  unfoldable pub new_uuid : M E Uuid
  new_uuid w = (ok (w.env.fresh w.calls), tick w)

  unfoldable pub read_env : M E Env
  read_env w = (ok w.env, w)

  -- `submit_pending_deduction`
  unfoldable pub submit : Uuid → Uuid → Action → Blockchain → ℕ → M E Uuid
  unfolding call
  submit org user action chain balance = call (λ w.
      let id = w.env.fresh w.calls in
      some (
        id,
        record w {
          submitted =
              record {
                id = id;
                organization = org;
                user = user;
                action = action;
                blockchain = chain;
                balance = balance;
              }
              ∷ w.submitted;
        },
      ))

  -- `confirm_deduction`
  unfoldable pub confirm : Uuid → M E (Unit {0})
  unfolding call
  confirm id = call (λ w. some (tt, record w { confirmed = id ∷ w.confirmed }))

  -- `Producer::send`
  unfoldable pub send : NftEvent → NftEventKey → M E (Unit {0})
  unfolding call
  send event key = call (λ w. some (tt, record w { sent = (event, key) ∷ w.sent }))

  -- `redis_conn.del(key)`
  unfoldable pub cache_del : CacheKey → M E (Unit {0})
  unfolding call
  cache_del key =
      call
        (λ w. some (tt, record w { cache = select (λ entry. not (same_key entry.0 key)) w.cache }))

  -- `redis_conn.get(key)`, whose errors, a missing key included, the code takes as no value.
  unfoldable pub cache_get : CacheKey → M E (Option ℕ)
  cache_get key w = (
    ok (
        if w.env.fails w.calls
        then none
        else entry_value (find (λ entry. same_key entry.0 key) w.cache)),
    tick w,
  )

  -- `redis_conn.set(key, value)`
  unfoldable pub cache_set : CacheKey → ℕ → M E (Unit {0})
  unfolding call
  cache_set key value = call (λ w. some (
    tt,
    record w { cache = (key, value) ∷ select (λ entry. not (same_key entry.0 key)) w.cache },
  ))

  abbrev pub rolled : {A : Type 0} → World → Result E A → World → Result E A × World
  rolled before (ok a) after =
      if after.env.fails after.calls
      then (fault, tick (rolled_back before after))
      else (ok a, tick after)
  rolled before (err e) after = (err e, rolled_back before after)
  rolled before fault after = (fault, rolled_back before after)

  -- The writes of `m` on a transaction, then `commit`. An error before the commit, or of the
  -- commit, drops the transaction, so that the database is as it was.
  unfoldable pub atomically : {A : Type 0} → M E A → M E A
  atomically m w = let (r, w') = m w in rolled w r w'

  -- `for item in items { … }`
  unfoldable pub each : {A : Type 0} → (A → M E (Unit {0})) → List A → M E (Unit {0})
  unfolding ◌>>=◌
  each body [] w = (ok tt, w)
  each body (x ∷ xs) w = (body x >> each body xs) w
