-- ===== src/Mutations/Mints/Random/OneDrawn.antt =====
-- What a success of `mint_random_queued_to_drop` takes from the queue.
use hub_nfts.Prelude.{
  ℕ, suc, ◌≡◌, ◌∙◌, String, Bool, true, List, some, Option-cases, inl, inr, get_elem?,
  get_elem?-select, select, ◌%◌, length,
}
use hub_nfts.Entities.{Uuid, Drop, CollectionMint}
use hub_nfts.Inputs.{Headers}
use hub_nfts.Effects.{
  World, Wp, IfOk, find_by_id, drops_table, connect_then, ok_or_then, query_then, random_query_then,
  by_then, part_then, pure_end,
}
use hub_nfts.Mutations.Mints.Queue.Once.{IsClaimed, mint_found-IsClaimed}
use hub_nfts.Mutations.Mints.Random.{draw, pick, first, queued_for, mint_random_queued_to_drop}

-- The mint that a draw of one takes from a selection.
first-draw :
    {A : Type 0} (random : ℕ → ℕ) (p : A → Bool) (xs : List A) {x : A}
    → first (draw 1 random (select p xs)) ≡ some x
    → (p x ≡ true) × (j : ℕ) × (get_elem? xs j ≡ some x)
first-draw random p xs {x} e = elim (Option-cases (pick (random 0) (select p xs))) [
  | inl n ↦ let f = rw (n, first) at e in absurd (cc)
  | inr (y, g) ↦ get_elem?-select p xs (random 0 % length (select p xs)) (g ∙ (rw (g, first) at e))
]

-- A queued mint of the drop's collection, before; its row is pending afterwards.
pub record TakesDrawn (drop_id : Uuid) (w w' : World) : Type 0 where
  pub drop : Drop
  pub drop_found : find_by_id drops_table drop_id w.db ≡ some drop
  pub place : ℕ
  pub mint : CollectionMint
  pub in_table : get_elem? w.db.mints place ≡ some mint
  pub was_queued : queued_for drop.collection_id mint ≡ true
  pub after : IsClaimed mint.id w'

-- Where `mint_random_queued_to_drop` succeeds, it has taken a mint of the drop's collection that was
-- queued, whatever the random order, and the mint's row is pending afterwards, with a deduction.
pub mint_random_queued_to_drop-TakesDrawn :
    (headers : Headers) (drop_id : Uuid) (recipient : String) (compressed : Bool) (w : World)
    → Wp
        (IfOk (λ m. TakesDrawn drop_id w))
        (mint_random_queued_to_drop headers drop_id recipient compressed)
        w
unfolding mint_random_queued_to_drop
mint_random_queued_to_drop-TakesDrawn headers drop_id recipient compressed w = connect_then _ tt (
    ok_or_then _ _ _ tt λ user _. ok_or_then _ _ _ tt λ org _. ok_or_then _ _ _ tt λ balance _.
      query_then _ _ tt (
        ok_or_then _ _ _ tt λ drop f. random_query_then _ _ tt (
          ok_or_then _ _ _ tt λ mint g. query_then _ _ tt (
            ok_or_then _ _ _ tt λ collection _. by_then _ (
              part_then _ _ _
                (mint_found-IsClaimed user org balance drop mint collection recipient compressed _)
                (λ u k. tt) (λ e u k. tt)
                λ a u k.
                  let (q, j, h) =
                    first-draw (w.env.random (suc (suc (suc w.calls))))
                      (queued_for drop.collection_id) w.db.mints g in
                  pure_end _ (record {
                    drop = drop;
                    drop_found = f;
                    place = j;
                    mint = mint;
                    in_table = h;
                    was_queued = q;
                    after = k;
                  }))))))
