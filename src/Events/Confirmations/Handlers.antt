-- ===== src/Events/Confirmations/Handlers.antt =====
-- What each handler of api/src/events.rs confirms.
use hub_nfts.Prelude.{◌≡◌, refl, sym, subst, String, List}
use hub_nfts.Entities.{Uuid, CollectionMint, Time}
use hub_nfts.Effects.{
  Env, World, Wp, Result, weaken, by_then, ok_or_then, read_env_then, query_then, send_then,
  update_then, insert_then, lift_then, read_clock_then, connect_then, atomically_then, pure_end,
  part_then, Deduction,
}
use hub_nfts.Mutations.Common.{mint_with_collection-found, mint_also_collection-found}
use hub_nfts.Events.Results.{ProcessorError, MintResult, SignedResult, ProtoBlockchain}
use hub_nfts.Events.Creation.{
  drop_created_handler, collection_created_handler, drop_minted_handler,
  minted_to_collection_handler,
}
use hub_nfts.Events.Histories.{mint_transferred, mint_updated, switch_collection_submitted}
use hub_nfts.Events.Ownership.{
  OwnershipUpdate, project_wallet_created, customer_wallet_created, update_mint_owner,
  update_polygon_mints_owner, hand_over,
}
use hub_nfts.Events.Confirmations.Steps.{
  IsCharged, ConfirmsIn, Confirms, Changes, idle, confirm_success-Confirms, confirm_signed-Confirms,
  confirm_transfer-Confirms, move_mint-Confirms, each-Confirms, collection_with_drop-found, nothing,
  for_drop, for_collection, for_mint, for_transfer, for_update, for_switch,
}

module _ (id : String) (w : World) where
  abbrev pub Goal : Result ProcessorError (Unit {0}) → World → Type 0
  Goal = Changes (IsCharged w.db) w

  pub drop_created-Confirms : (payload : MintResult) → Wp Goal (drop_created_handler id payload) w
  unfolding drop_created_handler
  drop_created-Confirms payload =
      let P = IsCharged w.db in
      read_env_then _ (
        ok_or_then _ _ _ (idle P w) λ collection_id _. query_then _ _ (idle P w) (
          ok_or_then _ _ _ (idle P w) λ pair f. ok_or_then _ _ _ (idle P w) λ drop g.
            part_then _ _ _
              (confirm_success-Confirms P payload drop.credits_deduction_id _
                (λ d e. for_drop _ drop d (collection_with_drop-found collection_id w.db f g) e))
              (λ u k. k) (λ e u k. k)
              λ a u k.
                send_then _ _ _ k
                  (update_then _ _ _ _ k λ _ _. update_then _ _ _ _ k λ _ _. pure_end _ k)))

  pub collection_created-Confirms :
      (payload : MintResult) → Wp Goal (collection_created_handler id payload) w
  unfolding collection_created_handler
  collection_created-Confirms payload =
      let P = IsCharged w.db in
      read_env_then _ (
        ok_or_then _ _ _ (idle P w) λ collection_id _. query_then _ _ (idle P w) (
          ok_or_then _ _ _ (idle P w) λ collection f.
            part_then _ _ _
              (confirm_success-Confirms P payload collection.credits_deduction_id _
                (λ d e. for_collection _ collection d f e))
              (λ u k. k) (λ e u k. k)
              λ a u k. send_then _ _ _ k (update_then _ _ _ _ k λ _ _. pure_end _ k)))

  pub drop_minted-Confirms : (payload : MintResult) → Wp Goal (drop_minted_handler id payload) w
  unfolding drop_minted_handler
  drop_minted-Confirms payload =
      let P = IsCharged w.db in
      read_env_then _ (
        ok_or_then _ _ _ (idle P w) λ mint_id _. query_then _ _ (idle P w) (
          ok_or_then _ _ _ (idle P w) λ pair f. query_then _ _ (idle P w) (
            ok_or_then _ _ _ (idle P w) λ history _. ok_or_then _ _ _ (idle P w) λ collection _.
              query_then _ _ (idle P w) (
                ok_or_then _ _ _ (idle P w) λ drop _.
                  part_then _ _ _
                    (confirm_success-Confirms P payload pair.0.credits_deduction_id _
                      (λ d e. for_mint _ pair.0 d (mint_also_collection-found mint_id w.db f) e))
                    (λ u k. k) (λ e u k. k)
                    λ a u k.
                      send_then _ _ _ k
                        (update_then _ _ _ _ k λ _ _. update_then _ _ _ _ k λ _ _. pure_end _ k)))))

  pub minted_to_collection-Confirms :
      (payload : MintResult) → Wp Goal (minted_to_collection_handler id payload) w
  unfolding minted_to_collection_handler
  minted_to_collection-Confirms payload =
      let P = IsCharged w.db in
      read_env_then _ (
        ok_or_then _ _ _ (idle P w) λ mint_id _. query_then _ _ (idle P w) (
          ok_or_then _ _ _ (idle P w) λ pair f. query_then _ _ (idle P w) (
            ok_or_then _ _ _ (idle P w) λ history _. ok_or_then _ _ _ (idle P w) λ collection _.
              part_then _ _ _
                (confirm_success-Confirms P payload pair.0.credits_deduction_id _
                  (λ d e. for_mint _ pair.0 d (mint_with_collection-found mint_id w.db f).0 e))
                (λ u k. k) (λ e u k. k)
                λ a u k.
                  send_then _ _ _ k
                    (update_then _ _ _ _ k λ _ _. update_then _ _ _ _ k λ _ _. pure_end _ k))))

  pub mint_transferred-Confirms : (payload : SignedResult) → Wp Goal (mint_transferred id payload) w
  unfolding mint_transferred
  mint_transferred-Confirms payload =
      let P = IsCharged w.db in
      read_env_then _ (
        ok_or_then _ _ _ (idle P w) λ transfer_id _. query_then _ _ (idle P w) (
          ok_or_then _ _ _ (idle P w) λ charge f.
            weaken _ (λ r u k. k)
              (confirm_transfer-Confirms P payload charge _ (λ d e. for_transfer _ charge d f e))))

  pub mint_updated-Confirms : (payload : SignedResult) → Wp Goal (mint_updated id payload) w
  unfolding mint_updated
  mint_updated-Confirms payload =
      let P = IsCharged w.db in
      read_env_then _ (
        ok_or_then _ _ _ (idle P w) λ history_id _. query_then _ _ (idle P w) (
          ok_or_then _ _ _ (idle P w) λ history f.
            part_then _ _ _
              (confirm_signed-Confirms P payload history.credit_deduction_id _
                (for_update _ history f))
              (λ u k. k) (λ e u k. k) λ a u k. update_then _ _ _ _ k λ _ _. pure_end _ k))

  pub switch_submitted-Confirms :
      (payload : SignedResult) → Wp Goal (switch_collection_submitted id payload) w
  unfolding switch_collection_submitted
  switch_submitted-Confirms payload =
      let P = IsCharged w.db in
      read_env_then _ (
        ok_or_then _ _ _ (idle P w) λ history_id _. query_then _ _ (idle P w) (
          ok_or_then _ _ _ (idle P w) λ history f. query_then _ _ (idle P w) (
            ok_or_then _ _ _ (idle P w) λ mint _.
              part_then _ _ _ (move_mint-Confirms P payload mint history _ (for_switch _ history f))
                (λ u k. k) (λ e u k. k) λ a u k. update_then _ _ _ _ k λ _ _. pure_end _ k)))

  pub update_mint_owner-Confirms :
      (sender recipient signature : String)
      → Wp Goal (update_mint_owner id sender recipient signature) w
  unfolding update_mint_owner
  update_mint_owner-Confirms sender recipient signature =
      let k = idle (IsCharged w.db) w in
      read_env_then _ (
        ok_or_then _ _ _ k λ mint_id _. query_then _ _ k (
          ok_or_then _ _ _ k λ mint _.
            update_then _ _ _ _ k λ _ _. read_clock_then _ (insert_then _ _ _ k λ _. pure_end _ k)))

  pub project_wallet-Confirms :
      (address : String) (chain : ProtoBlockchain)
      → Wp Goal (project_wallet_created id address chain) w
  unfolding project_wallet_created
  project_wallet-Confirms address chain =
      let k = idle (IsCharged w.db) w in
      read_env_then _ (
        ok_or_then _ _ _ k
          λ project _. lift_then _ _ (λ e _. k) k λ c _. insert_then _ _ _ k λ _. pure_end _ k)

  pub customer_wallet-Confirms :
      (address : String) (chain : ProtoBlockchain)
      → Wp Goal (customer_wallet_created id address chain) w
  unfolding customer_wallet_created
  customer_wallet-Confirms address chain =
      let k = idle (IsCharged w.db) w in
      read_env_then _ (
        ok_or_then _ _ _ k
          λ project _. lift_then _ _ (λ e _. k) k λ c _. insert_then _ _ _ k λ _. pure_end _ k)

pub hand_over-same :
    (env : Env) (payload : OwnershipUpdate) (now : Time) (mint : CollectionMint) (w : World)
    → Wp
        (λ r v. (v.confirmed ≡ w.confirmed) × (v.submitted ≡ w.submitted))
        (hand_over env payload now mint)
        w
unfolding hand_over
hand_over-same env payload now mint w =
    update_then _ _ _ _ (refl, refl)
      λ _ _.
        ok_or_then _ _ _ (refl, refl)
          λ _ _. insert_then _ _ _ (refl, refl) λ _. pure_end _ (refl, refl)

pub polygon_owners-Confirms :
    (payload : OwnershipUpdate) (w : World)
    → Wp (Changes (IsCharged w.db) w) (update_polygon_mints_owner payload) w
unfolding update_polygon_mints_owner
polygon_owners-Confirms payload w =
    let k = idle (IsCharged w.db) w in
    let all : (b : List Uuid) (s : List Deduction)
        → (b ≡ w.confirmed)
        → (s ≡ w.submitted)
        → Confirms (IsCharged w.db) w.confirmed w.submitted b s =
      λ b s e f. record {
        confirmed = subst (ConfirmsIn (IsCharged w.db) w.confirmed) (sym e) nothing;
        none_submitted = f;
      } in
    read_env_then _ (
      ok_or_then _ _ _ k λ now _. connect_then _ k (
        ok_or_then _ _ _ k λ ids _. query_then _ _ k (
          by_then _ (
            atomically_then _ _ _
              (each-Confirms (IsCharged w.db) _ _ _ (λ m v. hand_over-same _ payload now m v))
              (λ v (e, f). all _ _ e f) (λ x v (e, f). all _ _ e f) (λ a v (e, f). all _ _ e f)
              (λ a v (e, f). pure_end _ (all _ _ e f))))))
