-- ===== src/Effects/Jobs.antt =====
-- The job queue (api/src/background_worker/job_queue.rs), the upload service, and results that are
-- looked at in place of being passed on.
use hub_nfts.Prelude.{ℕ, suc, Bool, Option, none, some, List, [], ◌∷◌, ◌==◌, find, update_where}
use hub_nfts.Inputs.{MetadataJsonUploadTask, MetadataJsonInput}
use hub_nfts.Effects.State.{World, JobStatus, Job, JobStore, JobTracking, UploadResponse}
use hub_nfts.Effects.Monad.{Result, ok, err, fault, M, ◌>>=◌, ◌>>◌}
use hub_nfts.Effects.Steps.{call, connect}

abbrev pub has_job_id : ℕ → JobTracking → Bool
has_job_id id t = t.id == id

abbrev pub find_job : ℕ → JobStore → Option JobTracking
find_job id jobs = find (has_job_id id) jobs.trackings

abbrev pub with_status : JobStatus → JobTracking → JobTracking
with_status s t = record t { status = s }

abbrev pub put_status : ℕ → JobStatus → JobStore → JobStore
put_status id s jobs = record jobs {
  trackings = update_where (has_job_id id) (with_status s) jobs.trackings;
}

-- `update_status(model, status)`, then `save` or `update`: the row must be there.
abbrev pub updated_job : ℕ → JobStatus → World → Option JobTracking → Option (Unit {0} × World)
updated_job id s w none = none
updated_job id s w (some t) = some (tt, record w { jobs = put_status id s w.jobs })

-- The last item of a list, and the others.
abbrev pub rest_and_last : {A : Type 0} → A → Option (A × List A) → A × List A
rest_and_last x none = (x, [])
rest_and_last x (some (last, rest)) = (last, x ∷ rest)

abbrev pub pop_last : {A : Type 0} → List A → Option (A × List A)
pop_last [] = none
pop_last (x ∷ xs) = some (rest_and_last x (pop_last xs))

abbrev pub popped : World → Option (Job × List Job) → Option Job × World
popped w none = (none, w)
popped w (some (job, rest)) = (some job, record w { jobs = record (w.jobs) { waiting = rest } })

abbrev pub tracked : MetadataJsonUploadTask → JobStore → JobStore
tracked task jobs = record jobs {
  trackings =
      record { id = jobs.next_id; payload = task; status = JobStatus.queued } ∷ jobs.trackings;
  next_id = suc jobs.next_id;
}

abbrev pub pushed : Job → JobStore → JobStore
pushed job jobs = record jobs { waiting = job ∷ jobs.waiting }

module _ {E : Type 0} where
  -- `JobQueue::enqueue`: a row with the status "queued", then LPUSH.
  unfoldable pub track : MetadataJsonUploadTask → M E ℕ
  unfolding call
  track task = call (λ w. some (w.jobs.next_id, record w { jobs = tracked task w.jobs }))

  unfoldable pub push_job : Job → M E (Unit {0})
  unfolding call
  push_job job = call (λ w. some (tt, record w { jobs = pushed job w.jobs }))

  unfoldable pub enqueue : MetadataJsonUploadTask → M E (Unit {0})
  unfolding connect track push_job ◌>>=◌
  enqueue task = do connect; id ← track task; push_job (record { id = id; task = task })

  -- Reads of the table `job_trackings`.
  unfoldable pub query_jobs : {A : Type 0} → (JobStore → A) → M E A
  unfolding call
  query_jobs f = call (λ w. some (f w.jobs, w))

  unfoldable pub set_job_status : ℕ → JobStatus → M E (Unit {0})
  unfolding call
  set_job_status id s = call (λ w. updated_job id s w (find_job id w.jobs))

  -- BRPOP, which takes the job that waits longest. It blocks where none waits; its answer is then nil.
  unfoldable pub pop_job : M E (Option Job)
  unfolding call
  pop_job = call (λ w. some (popped w (pop_last w.jobs.waiting)))

  -- The upload service: one call, whatever the client's retries.
  unfoldable pub upload : MetadataJsonInput → M E UploadResponse
  unfolding call
  upload json = call (λ w. some (w.env.upload json, w))

module _ {E F : Type 0} where
  -- A result that is looked at, and not passed on by `?`.
  unfoldable pub attempt : {A : Type 0} → M E A → M F (Result E A)
  attempt m w = let (r, w') = m w in (ok r, w')

  abbrev pub replaced : {A : Type 0} → F → Result E A → Result F A
  replaced error (ok a) = ok a
  replaced error (err e) = err error
  replaced error fault = err error

  -- `map_err(|_| error)`: an error of a service, too, becomes `error`.
  unfoldable pub or_error : {A : Type 0} → F → M E A → M F A
  or_error error m w = let (r, w') = m w in (replaced error r, w')
