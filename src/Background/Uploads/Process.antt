-- ===== src/Background/Uploads/Process.antt =====
-- A task as a whole: the upload, then what its caller asks for.
use hub_nfts.Prelude.{refl, inl, Option, List}
use hub_nfts.Messages.{NftEvent, NftEventKey}
use hub_nfts.Entities.{Uuid}
use hub_nfts.Inputs.{Caller, MetadataJsonUploadTask}
use hub_nfts.Effects.{World, Wp, UploadResponse, tick, upload_then, weaken, Result, ok, err, fault}
use hub_nfts.Background.Process.{after, process_task}
use hub_nfts.Background.Errors.{TaskError}
use hub_nfts.Background.Uploads.{Outcome, Untouched}
use hub_nfts.Background.Uploads.Callers.{
  subject, Sends, create_drop-Outcome, patch_drop-Outcome, mint_to_collection-Outcome,
  create_collection-Outcome, patch_collection-Outcome, update_mint-Outcome,
  queue_mint_to_drop-Outcome,
}

module _ (response : UploadResponse) (w : World) where
  after-Outcome :
      (caller : Caller)
      → Wp
          (Outcome (Sends caller response) response (subject caller w.db) w)
          (after caller response)
          w
  unfolding after
  after-Outcome (Caller.create_drop id) = create_drop-Outcome response w id
  after-Outcome (Caller.patch_drop id user) = patch_drop-Outcome response w id user
  after-Outcome (Caller.mint_to_collection id) = mint_to_collection-Outcome response w id
  after-Outcome (Caller.create_collection id) = create_collection-Outcome response w id
  after-Outcome (Caller.patch_collection id user) = patch_collection-Outcome response w id user
  after-Outcome (Caller.queue_mint_to_drop drop id) = queue_mint_to_drop-Outcome response w drop id
  after-Outcome (Caller.update_mint id) = update_mint-Outcome response w id

-- The count of calls does not matter.
Outcome-tick :
    (S : List (NftEvent × NftEventKey) → List (NftEvent × NftEventKey) → Type 0)
    (response : UploadResponse) (target : Option Uuid) (w : World) (r : Result TaskError (Unit {0}))
    (w' : World)
    → Outcome S response target (tick w) r w'
    → Outcome S response target w r w'
Outcome-tick S response target w (ok _) w' h = h
Outcome-tick S response target w (err e) w' h = h
Outcome-tick S response target w fault w' h = h

-- Whatever fails, a task leaves the job store, the cache and the deductions alone, and writes
-- nothing but the URI and the content id of the upload, in the row of the metadata that its caller
-- names. Where it succeeds it has written them, and it has sent one event, which carries the URI;
-- for a queued mint it has sent none.
pub process_task-Outcome :
    (task : MetadataJsonUploadTask) (w : World)
    → let response = w.env.upload task.metadata_json in
      Wp
        (Outcome (Sends task.caller response) response (subject task.caller w.db) w)
        (process_task task)
        w
unfolding process_task
process_task-Outcome task w =
    upload_then _ _ ((refl, refl, refl, refl, refl), refl, inl refl)
      (weaken (after task.caller response)
        (Outcome-tick (Sends task.caller response) response (subject task.caller w.db) w)
        (after-Outcome response (tick w) task.caller))
  where
    response : UploadResponse
    response = w.env.upload task.metadata_json

untouched :
    (S : List (NftEvent × NftEventKey) → List (NftEvent × NftEventKey) → Type 0)
    (response : UploadResponse) (target : Option Uuid) (w : World) (r : Result TaskError (Unit {0}))
    (w' : World)
    → Outcome S response target w r w'
    → Untouched w w'
untouched S response target w (ok _) w' h = h.0
untouched S response target w (err e) w' h = h.0
untouched S response target w fault w' h = h.0

-- A task leaves the job store, the cache and the deductions alone.
pub process_task-Untouched :
    (task : MetadataJsonUploadTask) (w : World) → Untouched w (process_task task w).1
process_task-Untouched task w =
    untouched (Sends task.caller response) response (subject task.caller w.db) w
      (process_task task w).0 (process_task task w).1 (process_task-Outcome task w).holds
  where
    response : UploadResponse
    response = w.env.upload task.metadata_json
