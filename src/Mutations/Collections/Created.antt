-- ===== src/Mutations/Collections/Created.antt =====
-- What a success of `create_collection` leaves in the tables, the ledger and the queue.
use hub_nfts.Prelude.{◌≡◌, refl, ap, ◌∙◌, some, List, ◌∷◌}
use hub_nfts.Entities.{Uuid, Action, Collection, pending}
use hub_nfts.Effects.{
  World, Wp, IfOk, Deduction, ok_or_then, lift_then, connect_then, read_env_then, read_clock_then,
  insert_then, submit_then, send_then, enqueue_then, part_then, atomically_then, pure_end, by_then,
}
use hub_nfts.Inputs.{Headers}
use hub_nfts.Messages.{NftEvent, NftEventKey, collection_created, in_progress}
use hub_nfts.Mutations.Common.{
  fetch_owner_then, side_then, save_metadata-IsSide, insert_each_collection_creator-IsSide,
}
use hub_nfts.Mutations.Collections.{CreateCollectionInput, record_collection, create_collection}

-- One more collection, as the request asks for it.
pub record IsRecorded (input : CreateCollectionInput) (user deduction : Uuid)
    (collection : Collection) (before after : World) : Type 0 where
  pub collections : after.db.collections ≡ collection ∷ before.db.collections
  pub is_pending : collection.creation_status ≡ pending
  pub of_project : collection.project_id ≡ input.project
  pub on_chain : collection.blockchain ≡ input.blockchain
  pub empty_supply : collection.supply ≡ some 0
  pub by_user : collection.created_by ≡ user
  pub charged : collection.credits_deduction_id ≡ some deduction
  pub same_drops : after.db.drops ≡ before.db.drops
  pub same_mints : after.db.mints ≡ before.db.mints
  pub same_submitted : after.submitted ≡ before.submitted
  pub same_sent : after.sent ≡ before.sent

-- The end of the transaction changes none of it.
committed :
    {input : CreateCollectionInput} {user deduction : Uuid} {collection : Collection} {w v : World}
    (u : World)
    → u.db ≡ v.db
    → u.submitted ≡ v.submitted
    → u.sent ≡ v.sent
    → IsRecorded input user deduction collection w v
    → IsRecorded input user deduction collection w u
committed u a b c k = record {
  collections = ap (λ db. db.collections) a ∙ k.collections;
  is_pending = k.is_pending;
  of_project = k.of_project;
  on_chain = k.on_chain;
  empty_supply = k.empty_supply;
  by_user = k.by_user;
  charged = k.charged;
  same_drops = ap (λ db. db.drops) a ∙ k.same_drops;
  same_mints = ap (λ db. db.mints) a ∙ k.same_mints;
  same_submitted = b ∙ k.same_submitted;
  same_sent = c ∙ k.same_sent;
}

record_collection-IsRecorded :
    (user : Uuid) (input : CreateCollectionInput) (deduction : Uuid) (w : World)
    → Wp
        (IfOk (λ collection v. IsRecorded input user deduction collection w v))
        (record_collection user input deduction)
        w
unfolding record_collection
record_collection-IsRecorded user input deduction w = connect_then _ tt (
    read_env_then _ (
      read_clock_then _ (
        by_then _ (
          atomically_then _ _
            (IfOk (λ collection v. IsRecorded input user deduction collection w v))
            (insert_then _ _ _ tt λ _.
              side_then _ _ (insert_each_collection_creator-IsSide _ _ input.creators _) (λ s c. tt)
                (λ e s c. tt)
                λ _ s c.
                  side_then _ _ (save_metadata-IsSide _ input.metadata_json _) (λ t d. tt)
                    (λ e t d. tt)
                    λ _ t d. pure_end _ (record {
                      collections = refl;
                      is_pending = refl;
                      of_project = refl;
                      on_chain = refl;
                      empty_supply = refl;
                      by_user = refl;
                      charged = refl;
                      same_drops = refl;
                      same_mints = refl;
                      same_submitted = refl;
                      same_sent = refl;
                    }))
            (λ v k. tt) (λ e v k. tt) (λ a v k. tt)
            (λ a v k. pure_end _ (committed _ refl refl refl k))))))

-- What the caller of `create_collection` gets.
pub record CollectionCreated (headers : Headers) (input : CreateCollectionInput)
    (collection : Collection) (before after : World) : Type 0 where
  pub user : Uuid
  pub of_user : headers.user_id ≡ some user
  pub deduction : Deduction
  pub submitted : after.submitted ≡ deduction ∷ before.submitted
  pub for_user : deduction.user ≡ user
  pub for_organization : headers.organization_id ≡ some deduction.organization
  pub for_action : deduction.action ≡ Action.create_collection
  pub on_blockchain : deduction.blockchain ≡ input.blockchain
  pub collections : after.db.collections ≡ collection ∷ before.db.collections
  pub is_pending : collection.creation_status ≡ pending
  pub of_project : collection.project_id ≡ input.project
  pub on_chain : collection.blockchain ≡ input.blockchain
  pub empty_supply : collection.supply ≡ some 0
  pub by_user : collection.created_by ≡ user
  pub charged : collection.credits_deduction_id ≡ some deduction.id
  pub same_drops : after.db.drops ≡ before.db.drops
  pub same_mints : after.db.mints ≡ before.db.mints
  pub key : NftEventKey
  pub sent : after.sent ≡ (collection_created in_progress, key) ∷ before.sent
  pub same_key : key.id ≡ collection.id

sent_one :
    (event : NftEvent × NftEventKey) {after before : List (NftEvent × NftEventKey)}
    → after ≡ before
    → event ∷ after ≡ event ∷ before
sent_one event e = ap (λ l. event ∷ l) e

-- Where `create_collection` succeeds, it returns the only new collection: pending, with the project
-- and blockchain of the request, a supply of 0, by the caller. One deduction has been submitted,
-- whose id the collection carries: for the caller, the organization, this action and the blockchain.
-- One event has been sent, which says that the collection is in progress. No drop and no mint has
-- changed.
pub create_collection-CollectionCreated :
    (headers : Headers) (input : CreateCollectionInput) (w : World)
    → Wp
        (IfOk (λ collection v. CollectionCreated headers input collection w v))
        (create_collection headers input)
        w
unfolding create_collection
create_collection-CollectionCreated headers input w = ok_or_then _ _ _ tt λ user by.
    ok_or_then _ _ _ tt λ org for. ok_or_then _ _ _ tt λ balance _.
      fetch_owner_then _ _ _ _ tt tt λ owner. read_env_then _ (
        lift_then _ _ (λ e _. tt) tt
          λ _ _.
            lift_then _ _ (λ e _. tt) tt
              λ _ _. submit_then _ _ _ _ _ _ tt (
                part_then _ _ _ (record_collection-IsRecorded user input _ _) (λ v k. tt)
                  (λ e v k. tt)
                  λ collection v k.
                    enqueue_then _ _ (λ j c. tt)
                      λ j c. send_then _ _ _ tt (
                        pure_end _ (record {
                          user = user;
                          of_user = by;
                          deduction = _;
                          submitted = k.same_submitted;
                          for_user = refl;
                          for_organization = for;
                          for_action = refl;
                          on_blockchain = refl;
                          collections = k.collections;
                          is_pending = k.is_pending;
                          of_project = k.of_project;
                          on_chain = k.on_chain;
                          empty_supply = k.empty_supply;
                          by_user = k.by_user;
                          charged = k.charged;
                          same_drops = k.same_drops;
                          same_mints = k.same_mints;
                          key = record {
                            id = collection.id;
                            project_id = collection.project_id;
                            user_id = user;
                          };
                          sent = sent_one _ k.same_sent;
                          same_key = refl;
                        }))))
