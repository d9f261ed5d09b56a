-- ===== src/Mutations/Mints/Editions/Supply.antt =====
-- `mint_edition` and the supply of a collection.
use hub_nfts.Prelude.{
  ℕ, ◌≡◌, ◌≤◌, ◌+◌, refl, ap, sym, ◌∙◌, subst, Bool, true, false, Option, none, some, List, ◌∷◌,
  Bool-cases, inl, inr, String, find_sound, ==_iff, ◌==◌, tally, arith,
}
use mathlib.Core.Option.{some-injective}
use hub_nfts.Entities.{Uuid, Collection, CollectionMint}
use hub_nfts.Inputs.{Headers}
use hub_nfts.Errors.{Error}
use hub_nfts.Effects.{
  World, Result, ok, err, fault, find_by_id, has_key, drops_table, collections_table,
}
use hub_nfts.Mutations.Common.{minted, counts_for}
use hub_nfts.Mutations.Mints.Editions.{Reservation, reserve_edition, is_sold_out, mint_edition}
use hub_nfts.Mutations.Mints.Editions.Outcome.{
  Made, AtMostOne, EditionOutcome, mint_edition-EditionOutcome,
}
use hub_nfts.Mutations.Mints.Editions.Reserve.{Reserves, IsReserved, reserve_edition-Reserves}

tally-next :
    (p : CollectionMint → Bool) (m : CollectionMint) (ms : List CollectionMint)
    → tally p (m ∷ ms) ≤ tally p ms + 1
tally-next p m ms = ground arith

tally-skip :
    (p : CollectionMint → Bool) (m : CollectionMint) (ms : List CollectionMint)
    → p m ≡ false
    → tally p (m ∷ ms) ≡ tally p ms
tally-skip p m ms e = rw e refl

-- The collection of a reservation is the row that its drop names.
reserved_collection :
    {w : World} {drop_id id : Uuid} {r : Reservation} {c : Collection}
    → IsReserved w drop_id r
    → find_by_id collections_table id w.db ≡ some c
    → r.collection.id ≡ id
    → r.collection ≡ c
reserved_collection {w} {drop_id} {id} {r} {c} i f e =
    let k : (r.collection.id == r.drop.collection_id) ≡ true =
      find_sound (has_key collections_table r.drop.collection_id) w.db.collections
        i.collection_found in
    let g : id ≡ r.drop.collection_id = sym e ∙ (==_iff _ _).0 k in
    some-injective _ _
      (sym i.collection_found ∙ subst (λ x. find_by_id collections_table x w.db ≡ some c) g f)

room :
    (supply : Option ℕ) (n s : ℕ)
    → supply ≡ some s
    → is_sold_out supply n ≡ false
    → n ≤ s
    → n + 1 ≤ s
room none n s e h k = cc
room (some x) n s e h k = ground (arith, some-injective x s e)

-- A request to `mint_edition`, whatever becomes of it, leaves a collection with a supply with at
-- most that many mints, if it had at most that many.
pub mint_edition-supply :
    (headers : Headers) (drop_id : Uuid) (recipient : String) (w : World) (id s : ℕ)
    (c : Collection)
    → find_by_id collections_table id w.db ≡ some c
    → c.supply ≡ some s
    → minted id w.db ≤ s
    → minted id (mint_edition headers drop_id recipient w).1.db ≤ s
mint_edition-supply headers drop_id recipient w id s c f k h =
    go (mint_edition headers drop_id recipient w).0 (mint_edition headers drop_id recipient w).1
      (mint_edition-EditionOutcome headers drop_id recipient w).holds
  where
    bounded : (m : CollectionMint) (v : World) → Made headers drop_id w m v → minted id v.db ≤ s
    bounded m v x = rw x.mints (elim (Bool-cases (m.collection_id == id)) [
      | inl t ↦
          let e : x.reservation.collection.id ≡ id =
            sym x.is_mint_of.of_collection ∙ (==_iff _ _).0 t in
          let g = reserved_collection x.is_reserved f e in
          let n =
            room x.reservation.collection.supply (minted id w.db) s (ap (λ y. y.supply) g ∙ k)
              (subst (λ y. is_sold_out x.reservation.collection.supply (minted y w.db) ≡ false) e
                x.is_reserved.has_room)
              h in
          omega (arith, tally-next (counts_for id) m w.db.mints, n)
      | inr t ↦ subst (λ y. y ≤ s) (sym (tally-skip (counts_for id) m w.db.mints (rw t refl))) h
    ])

    at_most : (v : World) → AtMostOne headers drop_id w v → minted id v.db ≤ s
    at_most v (inl e) = subst (λ l. tally (counts_for id) l ≤ s) (sym e) h
    at_most v (inr (m, x)) = bounded m v x

    go :
        (x : Result Error CollectionMint) (v : World)
        → EditionOutcome headers drop_id w x v
        → minted id v.db ≤ s
    go (ok m) v o = bounded m v o
    go (err e) v o = at_most v o
    go fault v o = at_most v o

-- Two requests to `mint_edition` of a drop whose reads come before the writes of either are given
-- the same edition number: nothing keeps the second from the place that the first has taken.
pub reserve_edition-race :
    (first second : Headers) (drop_id : Uuid) (w : World) (r r' : Reservation) (u v : World)
    → reserve_edition first drop_id w ≡ (ok r, u)
    → reserve_edition second drop_id u ≡ (ok r', v)
    → (r.collection ≡ r'.collection) × (r.edition ≡ r'.edition)
reserve_edition-race first second drop_id w r r' u v e f =
    go
      (subst (λ p. Reserves first w drop_id p.0 p.1) e
        (reserve_edition-Reserves first drop_id w).holds)
      (subst (λ p. Reserves second u drop_id p.0 p.1) f
        (reserve_edition-Reserves second drop_id u).holds)
  where
    go :
        Reserves first w drop_id (ok r) u
        → Reserves second u drop_id (ok r') v
        → (r.collection ≡ r'.collection) × (r.edition ≡ r'.edition)
    go (same, _, i, _) (_, _, j, _) =
        let d : r.drop ≡ r'.drop = some-injective _ _ (
          sym i.drop_found
          ∙ subst (λ db. find_by_id drops_table drop_id db ≡ some r'.drop) same j.drop_found) in
        let c : r.collection ≡ r'.collection = some-injective _ _ (
          sym i.collection_found
          ∙ subst (λ x. find_by_id collections_table x.collection_id w.db ≡ some r'.collection)
              (sym d)
              (subst
                (λ db. find_by_id collections_table r'.drop.collection_id db ≡ some r'.collection)
                same j.collection_found)) in
        (
          c,
          i.edition_next
              ∙ ap (λ x. minted x.id w.db + 1) c
              ∙ ap (λ db. minted r'.collection.id db + 1) (sym same)
              ∙ sym j.edition_next,
        )
