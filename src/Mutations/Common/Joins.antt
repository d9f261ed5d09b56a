-- ===== src/Mutations/Common/Joins.antt =====
-- The rows that the joins find.
use mathlib.Core.Option.{some-injective}
use hub_nfts.Prelude.{◌≡◌, ◌∙◌, sym, ap, subst, Option, some, Option-cases, inl, inr}
use hub_nfts.Entities.{Uuid, Drop, Collection, CollectionMint}
use hub_nfts.Effects.{Db, find_by_id, drops_table, collections_table, mints_table}
use hub_nfts.Mutations.Common.Queries.{
  drop_with_collection, mint_with_collection, mint_also_collection,
}

-- The row that the join found, and the row of its collection.
pub drop_with_collection-found :
    (id : Uuid) (db : Db) {d : Drop} {o : Option Collection} {c : Collection}
    → drop_with_collection id db ≡ some (d, o)
    → o ≡ some c
    → (find_by_id drops_table id db ≡ some d)
      × (find_by_id collections_table d.collection_id db ≡ some c)
drop_with_collection-found id db {d} {o} {c} h k =
    elim (Option-cases (find_by_id drops_table id db)) [
      | inl n ↦ let e = rw n at h in cc
      | inr (x, e) ↦ elim (Option-cases (find_by_id collections_table x.collection_id db)) [
        | inl n ↦ let g = rw (e, n) at h in cc
        | inr (y, f) ↦
            let g : (x, some y) ≡ (d, o) = some-injective _ _ (rw (e, f) at h) in
            let dx = ap (λ p. p.0) g in
            (
              e ∙ ap (λ z. some z) dx,
              subst (λ z. find_by_id collections_table z.collection_id db ≡ some c) dx
                  (f ∙ ap (λ p. p.1) g ∙ k),
            )
      ]
    ]

pub mint_with_collection-found :
    (id : Uuid) (db : Db) {m : CollectionMint} {o : Option Collection}
    → mint_with_collection id db ≡ some (m, o)
    → (find_by_id mints_table id db ≡ some m)
      × (o ≡ find_by_id collections_table m.collection_id db)
mint_with_collection-found id db {m} {o} h = elim (Option-cases (find_by_id mints_table id db)) [
  | inl n ↦ let e = rw n at h in cc
  | inr (x, e) ↦ elim (Option-cases (find_by_id collections_table x.collection_id db)) [
    | inl n ↦ let g = rw (e, n) at h in cc
    | inr (y, f) ↦
        let g : (x, some y) ≡ (m, o) = some-injective _ _ (rw (e, f) at h) in
        let mx = ap (λ p. p.0) g in
        (
          e ∙ ap (λ z. some z) mx,
          subst (λ z. o ≡ find_by_id collections_table z.collection_id db) mx
              (sym (f ∙ ap (λ p. p.1) g)),
        )
  ]
]

pub mint_also_collection-found :
    (id : Uuid) (db : Db) {m : CollectionMint} {o : Option Collection}
    → mint_also_collection id db ≡ some (m, o)
    → find_by_id mints_table id db ≡ some m
mint_also_collection-found id db {m} {o} h = elim (Option-cases (find_by_id mints_table id db)) [
  | inl n ↦ let e = rw n at h in cc
  | inr (x, e) ↦ let g = some-injective _ _ (rw e at h) in e ∙ ap (λ z. some z) (ap (λ p. p.0) g)
]
