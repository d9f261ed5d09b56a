-- ===== src/Mutations/Retries.antt =====
-- What the retries leave alone.
use hub_nfts.Prelude.{
  Option, some, find, update_where, find-update_any, ap, ◌∙◌, inl, inr, String, ◌≡◌, refl, sym,
  subst, List, ◌∷◌,
}
use hub_nfts.Entities.{CollectionMint, Uuid, Blockchain, solana, polygon, ethereum, Collection}
use hub_nfts.Effects.{
  find_by_id, has_key, mints_table, update_then, World, Wp, Result, ok, err, fault, Deduction,
  by_then, ok_or_then, query_then, fail_if_then, submit_then, send_then, pure_end, raise_end,
  part_then,
}
use hub_nfts.Mutations.Mints.Editions.{retry_mint_edition, resend_edition, set_pending}
use hub_nfts.Inputs.{Headers}
use hub_nfts.Messages.{NftEventKey, MasterEdition}
use hub_nfts.Errors.{Error}
use hub_nfts.Mutations.Common.{fetch_owner_then}
use hub_nfts.Mutations.Collections.{retry_collection, resend_collection}

resend_collection-same :
    (b : Blockchain) (key : NftEventKey) (payload : MasterEdition) (w : World)
    → Wp
        (λ r w'. (w'.db ≡ w.db) × (w'.submitted ≡ w.submitted) × (w'.confirmed ≡ w.confirmed))
        (resend_collection b key payload)
        w
unfolding resend_collection
resend_collection-same solana key payload w =
    by_then _ (send_then _ _ _ (refl, refl, refl) (pure_end _ (refl, refl, refl)))
resend_collection-same polygon key payload w = raise_end _ (refl, refl, refl)
resend_collection-same ethereum key payload w = raise_end _ (refl, refl, refl)

-- A request that leaves the database alone; where it succeeds it has submitted one deduction.
pub data Submits (before : List Deduction) : List Deduction → Type 0 where
  none_submitted : Submits before before
  one_submitted : (d : Deduction) → Submits before (d ∷ before)

abbrev pub OnlySubmits : World → Result Error Collection → World → Type 0
OnlySubmits w (ok c) w' = (w'.db ≡ w.db) × ((d : Deduction) × (w'.submitted ≡ d ∷ w.submitted))
OnlySubmits w (err e) w' = (w'.db ≡ w.db) × Submits w.submitted w'.submitted
OnlySubmits w fault w' = (w'.db ≡ w.db) × Submits w.submitted w'.submitted

-- `retry_collection` leaves the database as it was, so that a collection that failed keeps that
-- status, and a success has submitted one deduction, in addition to what was submitted.
pub retry_collection-OnlySubmits :
    (headers : Headers) (id : Uuid) (w : World) → Wp (OnlySubmits w) (retry_collection headers id) w
unfolding retry_collection
retry_collection-OnlySubmits headers id w =
    ok_or_then _ _ _ (refl, none_submitted)
      λ user _.
        ok_or_then _ _ _ (refl, none_submitted)
          λ org _.
            ok_or_then _ _ _ (refl, none_submitted)
              λ balance _.
                query_then _ _ (refl, none_submitted)
                  (ok_or_then _ _ _ (refl, none_submitted)
                    λ collection _.
                      fail_if_then _ _ _ (λ _. (refl, none_submitted))
                        λ _.
                          query_then _ _ (refl, none_submitted)
                            (ok_or_then _ _ _ (refl, none_submitted)
                              λ json _.
                                ok_or_then _ _ _ (refl, none_submitted)
                                  λ uri _.
                                    query_then _ _ (refl, none_submitted)
                                      (fetch_owner_then _ _ _ _ (refl, none_submitted)
                                        (refl, none_submitted)
                                        λ owner.
                                          submit_then _ _ _ _ _ _ (refl, none_submitted)
                                            (part_then _ _ _ (resend_collection-same _ _ _ _)
                                              (λ w' (e, f, _). (
                                                e,
                                                subst (Submits w.submitted) (sym f)
                                                    (one_submitted _),
                                              ))
                                              (λ x w' (e, f, _). (
                                                e,
                                                subst (Submits w.submitted) (sym f)
                                                    (one_submitted _),
                                              ))
                                              (λ a w' (e, f, _). pure_end _ (e, (_, f)))))))

resend_edition-same :
    (collection : Collection) (mint : CollectionMint) (recipient owner : String) (key : NftEventKey)
    (w : World)
    → Wp (λ r w'. w'.db ≡ w.db) (resend_edition collection mint recipient owner key) w
unfolding resend_edition
resend_edition-same collection mint recipient owner key w = go collection.blockchain refl
  where
    go :
        (b : Blockchain)
        → collection.blockchain ≡ b
        → Wp (λ r w'. w'.db ≡ w.db) (resend_edition collection mint recipient owner key) w
    go solana e = rw e (by_then _ (send_then _ _ _ refl (pure_end _ refl)))
    go polygon e = rw e (by_then _ (send_then _ _ _ refl (pure_end _ refl)))
    go ethereum e = rw e (raise_end _ refl)

-- The row with this key is there, and has this deduction.
pub record HasDeduction (id : Uuid) (deduction : Option Uuid) (w : World) : Type 0 where
  pub mint : CollectionMint
  pub found : find_by_id mints_table id w.db ≡ some mint
  pub same_deduction : mint.credits_deduction_id ≡ deduction

module _ (id : Uuid) (deduction : Option Uuid) where
  HasDeduction-same :
      {w w' : World} → w'.db ≡ w.db → HasDeduction id deduction w → HasDeduction id deduction w'
  HasDeduction-same e k = record {
    mint = k.mint;
    found = ap (find_by_id mints_table id) e ∙ k.found;
    same_deduction = k.same_deduction;
  }

  HasDeduction-update :
      (x : Uuid) (w w' : World)
      → HasDeduction id deduction w
      → w'.db.mints ≡ update_where (has_key mints_table x) set_pending w.db.mints
      → HasDeduction id deduction w'
  HasDeduction-update x w w' k e =
      let (m, f, c) =
        find-update_any (has_key mints_table id) (has_key mints_table x) set_pending w.db.mints
          (λ y. refl) k.found in
      record {
        mint = m;
        found = ap (find (has_key mints_table id)) e ∙ f;
        same_deduction = elim c [
          | inl g ↦ ap (λ z. z.credits_deduction_id) g ∙ k.same_deduction
          | inr g ↦ ap (λ z. z.credits_deduction_id) g ∙ k.same_deduction
        ];
      }

  -- `retry_mint_edition` keeps the deduction of every mint that is there, on every outcome.
  pub retry_mint_edition-HasDeduction :
      (headers : Headers) (retried : Uuid) (w : World)
      → HasDeduction id deduction w
      → Wp (λ r w'. HasDeduction id deduction w') (retry_mint_edition headers retried) w
  unfolding retry_mint_edition
  retry_mint_edition-HasDeduction headers retried w m = ok_or_then _ _ _ m λ user _.
      ok_or_then _ _ _ m λ org _. ok_or_then _ _ _ m λ balance _.
        query_then _ _ (HasDeduction-same refl m) (
          ok_or_then _ _ _ (HasDeduction-same refl m) λ pair _.
            fail_if_then _ _ _ (λ _. HasDeduction-same refl m)
              λ _. query_then _ _ (HasDeduction-same refl m) (
                ok_or_then _ _ _ (HasDeduction-same refl m) λ collection _.
                  ok_or_then _ _ _ (HasDeduction-same refl m) λ drop _.
                    ok_or_then _ _ _ (HasDeduction-same refl m) λ recipient _.
                      fetch_owner_then _ _ _ _ (HasDeduction-same refl m) (HasDeduction-same refl m)
                        λ owner. submit_then _ _ _ _ _ _ (HasDeduction-same refl m) (
                          part_then _ _ _ (resend_edition-same _ _ _ _ _ _)
                            (λ w' e. HasDeduction-same e m) (λ r w' e. HasDeduction-same e m)
                            λ a w' e. by_then _ (
                              update_then _ _ _ _ (HasDeduction-same e m) λ row _. pure_end _ (
                                HasDeduction-update pair.0.id w' _ (HasDeduction-same e m) refl)))))
