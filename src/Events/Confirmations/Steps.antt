-- ===== src/Events/Confirmations/Steps.antt =====
-- The steps of the handlers that confirm a deduction, and the rows that a deduction is of.
use mathlib.Core.Option.{some-injective}
use hub_nfts.Prelude.{
  ◌≡◌, inl, inr, refl, ap, ◌∙◌, subst, Bool, Option, some, List, [], ◌∷◌, find, Option-cases,
}
use hub_nfts.Entities.{
  Uuid, Drop, Collection, CollectionMint, UpdateHistory, SwitchCollectionHistory, TransferCharge,
}
use hub_nfts.Effects.{
  Db, World, Wp, Result, each, find_by_id, collections_table, weaken, by_then, ok_or_then,
  confirm_then, update_then, pure_end, part_then, Deduction,
}
use hub_nfts.Mutations.Common.{drop_of_collection}
use hub_nfts.Events.Results.{MintResult, SignedResult}
use hub_nfts.Events.Creation.{Process, confirm_success, collection_with_drop}
use hub_nfts.Events.Histories.{move_mint, confirm_signed, confirm_transfer}

-- The deduction of a row that a read of the tables finds.
pub data IsCharged (db : Db) : Uuid → Type 0 where
  for_drop :
      (p : Drop → Bool) (x : Drop) (d : Uuid)
      → find p db.drops ≡ some x
      → x.credits_deduction_id ≡ some d
      → IsCharged db d
  for_collection :
      (p : Collection → Bool) (x : Collection) (d : Uuid)
      → find p db.collections ≡ some x
      → x.credits_deduction_id ≡ some d
      → IsCharged db d
  for_mint :
      (p : CollectionMint → Bool) (x : CollectionMint) (d : Uuid)
      → find p db.mints ≡ some x
      → x.credits_deduction_id ≡ some d
      → IsCharged db d
  for_transfer :
      (p : TransferCharge → Bool) (x : TransferCharge) (d : Uuid)
      → find p db.transfer_charges ≡ some x
      → x.credits_deduction_id ≡ some d
      → IsCharged db d
  for_update :
      (p : UpdateHistory → Bool) (x : UpdateHistory)
      → find p db.update_histories ≡ some x
      → IsCharged db x.credit_deduction_id
  for_switch :
      (p : SwitchCollectionHistory → Bool) (x : SwitchCollectionHistory)
      → find p db.switch_histories ≡ some x
      → IsCharged db x.credit_deduction_id

-- At most one deduction is confirmed, and it is one of those; none is submitted.
pub data ConfirmsIn (P : Uuid → Type 0) (before : List Uuid) : List Uuid → Type 0 where
  nothing : ConfirmsIn P before before
  one : (d : Uuid) → P d → ConfirmsIn P before (d ∷ before)

pub record Confirms (P : Uuid → Type 0) (before : List Uuid) (submitted : List Deduction)
    (after : List Uuid) (submitted' : List Deduction) : Type 0 where
  pub confirmed : ConfirmsIn P before after
  pub none_submitted : submitted' ≡ submitted

abbrev pub Changes : {E A : Type 0} → (Uuid → Type 0) → World → Result E A → World → Type 0
Changes P w r w' = Confirms P w.confirmed w.submitted w'.confirmed w'.submitted

module _ (P : Uuid → Type 0) where
  pub idle : (w : World) → Confirms P w.confirmed w.submitted w.confirmed w.submitted
  idle w = record { confirmed = nothing; none_submitted = refl }

  pub confirm_success-Confirms :
      (payload : MintResult) (o : Option Uuid) (w : World)
      → ((d : Uuid) → o ≡ some d → P d)
      → Wp (Changes P w) (confirm_success payload o) w
  unfolding confirm_success
  confirm_success-Confirms (MintResult.success s a) o w p = ok_or_then _ _ _ (idle w) λ d e.
      by_then _ (
        confirm_then _ _ (idle w)
          (pure_end _ (record { confirmed = one d (p d e); none_submitted = refl })))
  confirm_success-Confirms MintResult.failure o w p = pure_end _ (idle w)

  pub confirm_signed-Confirms :
      (payload : SignedResult) (d : Uuid) (w : World)
      → P d
      → Wp (Changes P w) (confirm_signed payload d) w
  unfolding confirm_signed
  confirm_signed-Confirms (SignedResult.success s) d w p = by_then _ (
      confirm_then _ _ (idle w)
        (pure_end _ (record { confirmed = one d p; none_submitted = refl })))
  confirm_signed-Confirms SignedResult.failure d w p = pure_end _ (idle w)

  pub confirm_transfer-Confirms :
      (payload : SignedResult) (charge : TransferCharge) (w : World)
      → ((d : Uuid) → charge.credits_deduction_id ≡ some d → P d)
      → Wp (Changes P w) (confirm_transfer payload charge) w
  confirm_transfer-Confirms (SignedResult.success s) charge w p = ok_or_then _ _ _ (idle w) λ d e.
      by_then _ (
        confirm_then _ _ (idle w)
          (pure_end _ (record { confirmed = one d (p d e); none_submitted = refl })))
  confirm_transfer-Confirms SignedResult.failure charge w p = pure_end _ (idle w)

  pub move_mint-Confirms :
      (payload : SignedResult) (mint : CollectionMint) (history : SwitchCollectionHistory)
      (w : World)
      → P history.credit_deduction_id
      → Wp (Changes P w) (move_mint payload mint history) w
  unfolding move_mint
  move_mint-Confirms (SignedResult.success s) mint history w p =
      update_then _ _ _ _ (idle w) λ row _. by_then _ (
        confirm_then _ _ (idle w)
          (pure_end _ (record { confirmed = one _ p; none_submitted = refl })))
  move_mint-Confirms SignedResult.failure mint history w p = pure_end _ (idle w)

  pub each-Confirms :
      {A : Type 0} (body : A → Process) (xs : List A) (w : World)
      → ((x : A) (v : World)
          → Wp (λ r v'. (v'.confirmed ≡ v.confirmed) × (v'.submitted ≡ v.submitted)) (body x) v)
      → Wp (λ r v'. (v'.confirmed ≡ w.confirmed) × (v'.submitted ≡ w.submitted)) (each body xs) w
  unfolding each
  each-Confirms body [] w h = record { holds = (refl, refl) }
  each-Confirms body (x ∷ xs) w h = record {
    holds =
        (part_then (body x) (λ _. each body xs)
          {Q = λ r v'. (v'.confirmed ≡ w.confirmed) × (v'.submitted ≡ w.submitted)} _ (h x w)
          (λ v k. k) (λ e v k. k)
          (λ a v (k, l).
            weaken _ (λ r v' (m, n). (m ∙ k, n ∙ l)) (each-Confirms body xs v h))).holds;
  }

-- The drop that the join finds.
pub collection_with_drop-found :
    (id : Uuid) (db : Db) {c : Collection} {o : Option Drop} {d : Drop}
    → collection_with_drop id db ≡ some (c, o)
    → o ≡ some d
    → drop_of_collection c.id db ≡ some d
collection_with_drop-found id db {c} {o} {d} h k =
    elim (Option-cases (find_by_id collections_table id db)) [
      | inl n ↦ let e = rw n at h in cc
      | inr (x, e) ↦ elim (Option-cases (drop_of_collection x.id db)) [
        | inl n ↦ let g = rw (e, n) at h in cc
        | inr (y, f) ↦
            let g : (x, some y) ≡ (c, o) = some-injective _ _ (rw (e, f) at h) in
            subst (λ z. drop_of_collection z.id db ≡ some d) (ap (λ p. p.0) g)
              (f ∙ ap (λ p. p.1) g ∙ k)
      ]
    ]
