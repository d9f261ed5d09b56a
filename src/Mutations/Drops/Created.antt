-- ===== src/Mutations/Drops/Created.antt =====
-- What a success of `create_drop` leaves in the tables, the queue and the ledger.
use hub_nfts.Prelude.{◌≡◌, refl, ℕ, Option, some, List, ◌∷◌}
use hub_nfts.Entities.{Uuid, Action, Drop, Collection, pending}
use hub_nfts.Effects.{
  World, Wp, IfOk, Deduction, ok_or_then, lift_then, connect_then, read_env_then, read_clock_then,
  insert_then, submit_then, send_then, enqueue_then, part_then, atomically_then, pure_end, by_then,
}
use hub_nfts.Inputs.{Headers}
use hub_nfts.Messages.{NftEvent, NftEventKey, drop_created, in_progress}
use hub_nfts.Mutations.Common.{
  fetch_owner_then, side_then, save_metadata-IsSide, insert_each_collection_creator-IsSide,
}
use hub_nfts.Mutations.Drops.{CreateDropInput, record_drop, create_drop}

-- One more drop and one more collection, both pending with this deduction.
pub record IsRecorded (deduction : Uuid) (drop : Drop) (before after : World) : Type 0 where
  pub collection : Collection
  pub drops : after.db.drops ≡ drop ∷ before.db.drops
  pub collections : after.db.collections ≡ collection ∷ before.db.collections
  pub same_collection : drop.collection_id ≡ collection.id
  pub drop_pending : drop.creation_status ≡ pending
  pub collection_pending : collection.creation_status ≡ pending
  pub drop_charged : drop.credits_deduction_id ≡ some deduction
  pub collection_charged : collection.credits_deduction_id ≡ some deduction
  pub same_mints : after.db.mints ≡ before.db.mints
  pub same_submitted : after.submitted ≡ before.submitted
  pub same_sent : after.sent ≡ before.sent

record_drop-IsRecorded :
    (user : Uuid) (input : CreateDropInput) (supply : Option ℕ) (deduction : Uuid) (w : World)
    → Wp
        (IfOk (λ drop v. IsRecorded deduction drop w v))
        (record_drop user input supply deduction)
        w
unfolding record_drop
record_drop-IsRecorded user input supply deduction w = connect_then _ tt (
    read_env_then _ (
      read_clock_then _ (
        by_then _ (
          atomically_then _ _ (IfOk (λ drop v. IsRecorded deduction drop w v))
            (ok_or_then _ _ _ tt λ fee _. insert_then _ _ _ tt λ _.
              side_then _ _ (insert_each_collection_creator-IsSide _ _ input.creators _) (λ s c. tt)
                (λ e s c. tt)
                λ _ s c.
                  side_then _ _ (save_metadata-IsSide _ input.metadata_json _) (λ t d. tt)
                    (λ e t d. tt)
                    λ _ t d. ok_or_then _ _ _ tt λ price _. by_then _ (
                      insert_then _ _ _ tt λ _. pure_end _ (record {
                        collection = _;
                        drops = refl;
                        collections = refl;
                        same_collection = refl;
                        drop_pending = refl;
                        collection_pending = refl;
                        drop_charged = refl;
                        collection_charged = refl;
                        same_mints = refl;
                        same_submitted = refl;
                        same_sent = refl;
                      })))
            (λ v k. tt) (λ e v k. tt) (λ a v k. tt)
            (λ a v k. pure_end _ (record {
              collection = k.collection;
              drops = k.drops;
              collections = k.collections;
              same_collection = k.same_collection;
              drop_pending = k.drop_pending;
              collection_pending = k.collection_pending;
              drop_charged = k.drop_charged;
              collection_charged = k.collection_charged;
              same_mints = k.same_mints;
              same_submitted = k.same_submitted;
              same_sent = k.same_sent;
            }))))))

-- The drop and its collection are pending, with the deduction that the request submitted.
pub record IsCreated (drop : Drop) (before after : World) : Type 0 where
  pub deduction : Deduction
  pub submitted : after.submitted ≡ deduction ∷ before.submitted
  pub for_create : deduction.action ≡ Action.create_drop
  pub collection : Collection
  pub drops : after.db.drops ≡ drop ∷ before.db.drops
  pub collections : after.db.collections ≡ collection ∷ before.db.collections
  pub same_collection : drop.collection_id ≡ collection.id
  pub drop_pending : drop.creation_status ≡ pending
  pub collection_pending : collection.creation_status ≡ pending
  pub drop_charged : drop.credits_deduction_id ≡ some deduction.id
  pub collection_charged : collection.credits_deduction_id ≡ some deduction.id
  pub same_mints : after.db.mints ≡ before.db.mints
  pub key : NftEventKey
  pub sent : after.sent ≡ (drop_created in_progress collection.id, key) ∷ before.sent
  pub same_key : key.id ≡ drop.id

sent_one :
    (key : NftEventKey) {c d : Uuid} {before after : List (NftEvent × NftEventKey)}
    → c ≡ d
    → after ≡ before
    → (drop_created in_progress c, key) ∷ after ≡ (drop_created in_progress d, key) ∷ before
sent_one key e f = cc

-- Where `create_drop` succeeds, it has submitted one deduction for the action, and the tables have
-- one more drop and one more collection, which are pending and carry this deduction. One event has
-- been sent, which says that the drop is in progress. No mint has changed.
pub create_drop-IsCreated :
    (headers : Headers) (input : CreateDropInput) (w : World)
    → Wp (IfOk (λ drop v. IsCreated drop w v)) (create_drop headers input) w
unfolding create_drop
create_drop-IsCreated headers input w = ok_or_then _ _ _ tt λ user _. ok_or_then _ _ _ tt λ org _.
    ok_or_then _ _ _ tt λ balance _. fetch_owner_then _ _ _ _ tt tt λ owner.
      lift_then _ _ (λ e _. tt) tt
        λ supply _. read_env_then _ (
          read_clock_then _ (
            lift_then _ _ (λ e _. tt) tt
              λ _ _.
                lift_then _ _ (λ e _. tt) tt
                  λ _ _. submit_then _ _ _ _ _ _ tt (
                    part_then _ _ (IfOk (λ drop v. IsRecorded _ drop _ v))
                      (record_drop-IsRecorded user input supply _ _) (λ v k. tt) (λ e v k. tt)
                      λ drop v k.
                        enqueue_then _ _ (λ j c. tt)
                          λ j c. send_then _ _ _ tt (
                            pure_end _ (record {
                              deduction = _;
                              submitted = k.same_submitted;
                              for_create = refl;
                              collection = k.collection;
                              drops = k.drops;
                              collections = k.collections;
                              same_collection = k.same_collection;
                              drop_pending = k.drop_pending;
                              collection_pending = k.collection_pending;
                              drop_charged = k.drop_charged;
                              collection_charged = k.collection_charged;
                              same_mints = k.same_mints;
                              key = record {
                                id = drop.id;
                                project_id = input.project;
                                user_id = user;
                              };
                              sent = sent_one _ k.same_collection k.same_sent;
                              same_key = refl;
                            })))))
