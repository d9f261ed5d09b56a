-- ===== src/Loaders/Agreement.antt =====
-- The cache agrees with the tables, and so do the loaders' answers.
use hub_nfts.Prelude.{
  ℕ, ◌≡◌, refl, sym, ap, ◌∙◌, subst, true, not, Option, none, some, List, [], ◌∷◌, ◌++◌, ◌⊎◌, inl,
  inr, select, map, All, All-map, All-append, All-select, All-find, find_sound, ==_iff,
}
use mathlib.Core.Option.{some-injective}
use hub_nfts.Entities.{Uuid}
use hub_nfts.Effects.{
  World, Db, CacheKey, total_mints, supply, Wp, Result, ok, err, fault, same_key, entry_value,
  cache_get_then, cache_set_then, query_then, connect_then, part_then, pure_end, weaken, tick,
  ◌>>=◌, pure,
}
use hub_nfts.Mutations.Common.{minted}
use hub_nfts.Loaders.{
  Counts, noted, all_mints, read_cached, fill_cache, count_missing, load_total_mints,
}

-- An entry says what the tables say.
abbrev pub IsRight : Db → CacheKey × ℕ → Type 0
IsRight db (total_mints id, value) = value ≡ minted id db
IsRight db (supply id, value) = value ≡ all_mints id db

abbrev pub AgreesWith : World → Type 0
AgreesWith w = All (IsRight w.db) w.cache

abbrev pub Has : Uuid → List Uuid → Type 0
Has id [] = ⊥
Has id (x ∷ xs) = (id ≡ x) ⊎ Has id xs

abbrev pub ids_of : Counts → List Uuid
ids_of counts = map (λ entry. entry.0) counts

-- Every answer is the count of the tables.
abbrev pub AllRight : Db → Counts → Type 0
AllRight db counts = All (λ entry. entry.1 ≡ minted entry.0 db) counts

-- A value that the cache has for the total of a collection is right.
cached_right :
    (db : Db) (id : Uuid) (o : Option (CacheKey × ℕ))
    → ((e : CacheKey × ℕ) → o ≡ some e → IsRight db e × (same_key e.0 (total_mints id) ≡ true))
    → (value : ℕ) → entry_value o ≡ some value
    → value ≡ minted id db
cached_right db id none h value e = absurd (cc)
cached_right db id (some (total_mints other, x)) h value e =
    let (right, same) = h (total_mints other, x) refl in
    sym (some-injective _ _ e) ∙ right ∙ ap (λ k. minted k db) ((==_iff _ _).0 same)
cached_right db id (some (supply other, x)) h value e =
    let (right, same) = h (supply other, x) refl in absurd (cc)

-- What is known of the answers and the missing keys, for these keys.
abbrev Answers : Db → List Uuid → Counts × List Uuid → Type 0
Answers db ids (found, missing) =
    AllRight db found × All (λ id. Has id (ids_of found) ⊎ Has id missing) ids

noted-Answers :
    (db : Db) (ids : List Uuid) (id : Uuid) (o : Option ℕ) (rest : Counts × List Uuid)
    → ((value : ℕ) → o ≡ some value → value ≡ minted id db)
    → Answers db ids rest
    → Answers db (id ∷ ids) (noted id o rest)
noted-Answers db ids id none (found, missing) h (right, all) = (
  right,
  (inr (inl refl), All-map _ _ ids (λ k x. elim x [ inl y ↦ inl y | inr y ↦ inr (inr y) ]) all),
)
noted-Answers db ids id (some value) (found, missing) h (right, all) = (
  (h value refl, right),
  (inl (inl refl), All-map _ _ ids (λ k x. elim x [ inl y ↦ inl (inr y) | inr y ↦ inr y ]) all),
)

set_agrees :
    (id : Uuid) (w : World)
    → AgreesWith w
    → All (IsRight w.db) (
        (total_mints id, minted id w.db)
        ∷ select (λ entry. not (same_key entry.0 (total_mints id))) w.cache)
set_agrees id w agrees =
    (refl, All-map _ _ _ (λ e (right, _). right) (All-select (IsRight w.db) _ w.cache agrees))

All-Has : (P : Uuid → Type 0) (xs : List Uuid) (k : Uuid) → All P xs → Has k xs → P k
All-Has P [] k h x = absurd x
All-Has P (y ∷ ys) k h (inl e) = subst P (sym e) h.0
All-Has P (y ∷ ys) k h (inr x) = All-Has P ys k h.1 x

Has-left : (k : Uuid) (xs ys : Counts) → Has k (ids_of xs) → Has k (ids_of (xs ++ ys))
Has-left k [] ys h = absurd h
Has-left k (x ∷ xs) ys (inl e) = inl e
Has-left k (x ∷ xs) ys (inr h) = inr (Has-left k xs ys h)

Has-right : (k : Uuid) (xs ys : Counts) → Has k (ids_of ys) → Has k (ids_of (xs ++ ys))
Has-right k [] ys h = h
Has-right k (x ∷ xs) ys h = inr (Has-right k xs ys h)

module _ {E : Type 0} where
  abbrev Reading : List Uuid → World → Result E (Counts × List Uuid) → World → Type 0
  Reading ids w (ok rest) v = (v.db ≡ w.db) × (v.cache ≡ w.cache) × Answers w.db ids rest
  Reading ids w (err e) v = (v.db ≡ w.db) × (v.cache ≡ w.cache)
  Reading ids w fault v = (v.db ≡ w.db) × (v.cache ≡ w.cache)

  Reading-tick :
      (ids : List Uuid) (w : World) (r : Result E (Counts × List Uuid)) (v : World)
      → Reading ids (tick w) r v
      → Reading ids w r v
  Reading-tick ids w (ok rest) v h = h
  Reading-tick ids w (err e) v h = h
  Reading-tick ids w fault v h = h

  noted-Reading :
      (ids : List Uuid) (id : Uuid) (o : Option ℕ) (w : World)
      → ((value : ℕ) → o ≡ some value → value ≡ minted id w.db)
      → Wp (Reading ids w) (read_cached total_mints ids) w
      → Wp (Reading (id ∷ ids) w) (read_cached total_mints ids >>= λ rest. pure (noted id o rest)) w
  noted-Reading ids id o w h rest =
      part_then _ _ (Reading ids w) rest (λ v k. k) (λ e v k. k)
        λ found v (a, b, c). pure_end _ (a, b, noted-Answers w.db ids id o found h c)

  read_cached-Reading :
      (ids : List Uuid) (w : World)
      → AgreesWith w
      → Wp (Reading ids w) (read_cached total_mints ids) w
  unfolding read_cached
  read_cached-Reading [] w agrees = pure_end _ (refl, refl, (tt, tt))
  read_cached-Reading (id ∷ ids) w agrees =
      let rest = read_cached-Reading ids (tick w) agrees in
      weaken _ (Reading-tick (id ∷ ids) w) (
        cache_get_then _ _ (noted-Reading ids id none (tick w) (λ value e. absurd (cc)) rest) (
          noted-Reading ids id _ (tick w)
            (cached_right w.db id _ λ e f. (
              All-find (IsRight w.db) _ w.cache agrees f,
              find_sound (λ entry. same_key entry.0 (total_mints id)) w.cache f,
            ))
            rest))

  -- The cache stays right, and the answers are right, one for every key.
  abbrev pub Loaded : List Uuid → Db → Result E Counts → World → Type 0
  Loaded ids db (ok counts) v =
      (v.db ≡ db) × AgreesWith v × AllRight db counts × All (λ id. Has id (ids_of counts)) ids
  Loaded ids db (err e) v = (v.db ≡ db) × AgreesWith v
  Loaded ids db fault v = (v.db ≡ db) × AgreesWith v

  fill_cache-Loaded :
      (ids : List Uuid) (w : World)
      → AgreesWith w
      → Wp (Loaded ids w.db) (fill_cache total_mints (λ id. minted id w.db) ids) w
  unfolding fill_cache
  fill_cache-Loaded [] w agrees = pure_end _ (refl, agrees, tt, tt)
  fill_cache-Loaded (id ∷ ids) w agrees =
      cache_set_then _ _ _ (refl, agrees)
        (part_then _ _ (Loaded ids w.db) (fill_cache-Loaded ids _ (set_agrees id w agrees))
          (λ v k. k) (λ e v k. k)
          λ filled v (a, b, c, d).
            pure_end _ (a, b, (refl, c), (inl refl, All-map _ _ ids (λ k x. inr x) d)))

  count_missing-Loaded :
      (ids : List Uuid) (found : Counts) (missing : List Uuid) (w : World)
      → AgreesWith w
      → Answers w.db ids (found, missing)
      → Wp (Loaded ids w.db) (count_missing (found, missing)) w
  unfolding count_missing
  count_missing-Loaded ids found [] w agrees (right, all) =
      pure_end _
        (refl, agrees, right, All-map _ _ ids (λ k x. elim x [ inl y ↦ y | inr y ↦ absurd y ]) all)
  count_missing-Loaded ids found (m ∷ ms) w agrees (right, all) =
      query_then _ _ (refl, agrees)
        (part_then _ _ (Loaded (m ∷ ms) w.db) (fill_cache-Loaded (m ∷ ms) (tick w) agrees)
          (λ v k. k) (λ e v k. k)
          λ filled v (a, b, c, d). pure_end _ (
            a,
            b,
            All-append _ filled found c right,
            All-map _ _ ids
                (λ k x. elim x [
                  | inl y ↦ Has-right k filled found y
                  | inr y ↦ Has-left k filled found (All-Has _ (m ∷ ms) k d y)
                ])
                all,
          ))

  -- Where the cache agrees with the tables, it does so after a load of total mints, whatever fails;
  -- and where the load succeeds, it answers every key with the number of mints of the collection
  -- that are not queued.
  pub load_total_mints-Loaded :
      (ids : List Uuid) (w : World) → AgreesWith w → Wp (Loaded ids w.db) (load_total_mints ids) w
  unfolding load_total_mints
  load_total_mints-Loaded ids w agrees =
      connect_then _ (refl, agrees)
        (part_then _ _ (Reading ids (tick w)) (read_cached-Reading ids (tick w) agrees)
          (λ v (a, b). (a, still v a b)) (λ e v (a, b). (a, still v a b))
          λ rest v (a, b, c).
            subst (λ d. Wp (Loaded ids d) (count_missing rest) v) a
              (count_missing-Loaded ids rest.0 rest.1 v (still v a b)
                (subst (λ d. Answers d ids rest) (sym a) c)))
    where
      still : (v : World) → v.db ≡ w.db → v.cache ≡ w.cache → AgreesWith v
      still v a b =
          subst (λ d. All (IsRight d) v.cache) (sym a) (subst (All (IsRight w.db)) (sym b) agrees)
