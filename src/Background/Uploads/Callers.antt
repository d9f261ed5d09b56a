-- ===== src/Background/Uploads/Callers.antt =====
-- Every task stores the upload in the row of the metadata that its caller names.
use hub_nfts.Prelude.{◌≡◌, refl, ap, ◌∙◌, sym, Option, none, some, List}
use hub_nfts.Messages.{NftEvent, NftEventKey}
use hub_nfts.Entities.{Uuid, Drop, UpdateHistory}
use hub_nfts.Inputs.{Caller}
use hub_nfts.Effects.{
  World, Db, Wp, UploadResponse, find_by_id, find_by_id_key, drops_table, collections_table,
  mints_table, update_histories_table, metadata_jsons_table, query_then, ok_or_then, update_then,
  pure_end,
}
use hub_nfts.Mutations.Common.{drop_with_collection-found, mint_with_collection-found}
use hub_nfts.Background.Tasks.{
  after_create_drop, after_mint_to_collection, after_create_collection, after_queue_mint_to_drop,
  after_update_mint,
}
use hub_nfts.Background.Process.{after_patch_collection, after_patch_drop, after}
use hub_nfts.Background.Uploads.{Outcome, Announced}
use hub_nfts.Background.Uploads.Steps.{project_owner_then, store_send, idle}
use hub_nfts.Background.Uploads.Sends.{
  send_create_drop-Sending, send_patch_drop-Sending, send_mint_to_collection-Sending,
  send_create_collection-Sending, send_patch_collection-Sending, send_update_mint-Sending,
}

-- The metadata that a task is about: that of the collection of a drop, of the collection, of the
-- mint, or of the mint of an update.
abbrev pub of_drop : Option Drop → Option Uuid
of_drop none = none
of_drop (some d) = some d.collection_id

abbrev pub of_update : Option UpdateHistory → Option Uuid
of_update none = none
of_update (some h) = some h.mint_id

abbrev pub subject : Caller → Db → Option Uuid
subject (Caller.create_drop id) db = of_drop (find_by_id drops_table id db)
subject (Caller.patch_drop id _) db = of_drop (find_by_id drops_table id db)
subject (Caller.mint_to_collection id) db = some id
subject (Caller.create_collection id) db = some id
subject (Caller.patch_collection id _) db = some id
subject (Caller.queue_mint_to_drop _ id) db = some id
subject (Caller.update_mint id) db = of_update (find_by_id update_histories_table id db)

-- The events of a task that succeeds: one, with the URI, but none for a queued mint.
abbrev pub Sends :
    Caller → UploadResponse → List (NftEvent × NftEventKey) → List (NftEvent × NftEventKey) → Type 0
Sends (Caller.queue_mint_to_drop _ _) response before after = after ≡ before
Sends _ response before after = Announced response.uri before after

drop_subject :
    (id : Uuid) (db : Db) {d : Drop} {c : Uuid}
    → find_by_id drops_table id db ≡ some d
    → d.collection_id ≡ c
    → of_drop (find_by_id drops_table id db) ≡ some c
drop_subject id db e f = ap of_drop e ∙ ap (λ x. some x) f

module _ (response : UploadResponse) (w : World) where
  pub create_drop-Outcome :
      (id : Uuid)
      → Wp
          (Outcome
            (Sends (Caller.create_drop id) response)
            response
            (subject (Caller.create_drop id) w.db)
            w)
          (after_create_drop id response)
          w
  unfolding after_create_drop
  create_drop-Outcome id = query_then _ _ (idle w) (
      ok_or_then _ _ _ (idle w) λ pair e. ok_or_then _ _ _ (idle w) λ collection g.
        query_then _ _ (idle w) (
          ok_or_then _ _ _ (idle w) λ json f. query_then _ _ (idle w) (
            project_owner_then _ _ (idle w) λ owner.
              let (was, its) = drop_with_collection-found id w.db e g in
              store_send response json _ collection.id _ w _
                (drop_subject id w.db was (sym (find_by_id_key collections_table _ w.db its))) f
                λ stored w'. send_create_drop-Sending collection _ owner stored w' _ pair.0)))

  pub patch_drop-Outcome :
      (id user : Uuid)
      → Wp
          (Outcome
            (Sends (Caller.patch_drop id user) response)
            response
            (subject (Caller.patch_drop id user) w.db)
            w)
          (after_patch_drop id user response)
          w
  unfolding after_patch_drop
  patch_drop-Outcome id user = query_then _ _ (idle w) (
      ok_or_then _ _ _ (idle w) λ pair e. ok_or_then _ _ _ (idle w) λ collection g.
        query_then _ _ (idle w) (
          ok_or_then _ _ _ (idle w) λ json f. query_then _ _ (idle w) (
            project_owner_then _ _ (idle w) λ owner.
              let (was, its) = drop_with_collection-found id w.db e g in
              store_send response json _ collection.id _ w _
                (drop_subject id w.db was (sym (find_by_id_key collections_table _ w.db its))) f
                λ stored w'. send_patch_drop-Sending collection _ owner stored w' _ user pair.0)))

  pub mint_to_collection-Outcome :
      (id : Uuid)
      → Wp
          (Outcome (Sends (Caller.mint_to_collection id) response) response (some id) w)
          (after_mint_to_collection id response)
          w
  unfolding after_mint_to_collection
  mint_to_collection-Outcome id = query_then _ _ (idle w) (
      ok_or_then _ _ _ (idle w) λ pair e. ok_or_then _ _ _ (idle w) λ collection g.
        query_then _ _ (idle w) (
          ok_or_then _ _ _ (idle w) λ json f. query_then _ _ (idle w) (
            project_owner_then _ _ (idle w) λ owner.
              let (was, its) = mint_with_collection-found id w.db e in
              store_send response json _ pair.0.id _ w _
                (ap (λ x. some x) (sym (find_by_id_key mints_table id w.db was))) f
                λ stored w'.
                  ok_or_then _ _ _ ((refl, refl, refl, refl, refl), refl, refl)
                    λ recipient _.
                      send_mint_to_collection-Sending collection _ owner stored w' _ pair.0
                        recipient)))

  pub create_collection-Outcome :
      (id : Uuid)
      → Wp
          (Outcome (Sends (Caller.create_collection id) response) response (some id) w)
          (after_create_collection id response)
          w
  unfolding after_create_collection
  create_collection-Outcome id = query_then _ _ (idle w) (
      ok_or_then _ _ _ (idle w) λ collection e. query_then _ _ (idle w) (
        ok_or_then _ _ _ (idle w) λ json f. query_then _ _ (idle w) (
          project_owner_then _ _ (idle w) λ owner.
            store_send response json _ collection.id _ w _
              (ap (λ x. some x) (sym (find_by_id_key collections_table id w.db e))) f
              λ stored w'. send_create_collection-Sending collection _ owner stored w' _)))

  pub patch_collection-Outcome :
      (id user : Uuid)
      → Wp
          (Outcome (Sends (Caller.patch_collection id user) response) response (some id) w)
          (after_patch_collection id user response)
          w
  unfolding after_patch_collection
  patch_collection-Outcome id user = query_then _ _ (idle w) (
      ok_or_then _ _ _ (idle w) λ collection e. query_then _ _ (idle w) (
        ok_or_then _ _ _ (idle w) λ json f. query_then _ _ (idle w) (
          project_owner_then _ _ (idle w) λ owner.
            store_send response json _ collection.id _ w _
              (ap (λ x. some x) (sym (find_by_id_key collections_table id w.db e))) f
              λ stored w'. send_patch_collection-Sending collection _ owner stored w' _ user)))

  pub update_mint-Outcome :
      (id : Uuid)
      → Wp
          (Outcome
            (Sends (Caller.update_mint id) response)
            response
            (subject (Caller.update_mint id) w.db)
            w)
          (after_update_mint id response)
          w
  unfolding after_update_mint
  update_mint-Outcome id = query_then _ _ (idle w) (
      ok_or_then _ _ _ (idle w) λ history h. query_then _ _ (idle w) (
        ok_or_then _ _ _ (idle w) λ pair e. query_then _ _ (idle w) (
          ok_or_then _ _ _ (idle w) λ json f. query_then _ _ (idle w) (
            ok_or_then _ _ _ (idle w) λ collection g. project_owner_then _ _ (idle w) λ owner.
              let (was, its) = mint_with_collection-found history.mint_id w.db e in
              store_send response json _ pair.0.id _ w _
                (ap of_update h ∙ ap (λ x. some x) (sym (find_by_id_key mints_table _ w.db was))) f
                λ stored w'. send_update_mint-Sending collection _ owner stored w' _ history))))

  pub queue_mint_to_drop-Outcome :
      (drop id : Uuid)
      → Wp
          (Outcome (Sends (Caller.queue_mint_to_drop drop id) response) response (some id) w)
          (after_queue_mint_to_drop id response)
          w
  unfolding after_queue_mint_to_drop
  queue_mint_to_drop-Outcome drop id = query_then _ _ (idle w) (
      ok_or_then _ _ _ (idle w) λ json f. update_then _ _ _ _ (idle w) λ row found. pure_end _ (
        (refl, refl, refl, refl, refl),
        refl,
        json.id,
        ap (λ x. some x) (sym (find_by_id_key metadata_jsons_table id w.db f)),
        record { row = row; was = found; now = refl },
      ))
