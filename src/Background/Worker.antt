-- ===== src/Background/Worker.antt =====
-- The worker (api/src/background_worker/worker.rs) and the other end of the queue
-- (api/src/background_worker/job_queue.rs).
pub mod Consistent
mod Queue
mod Keeps
mod Retries
pub mod Invariant
mod Runs
pub mod Bounds
pub mod Fifo
pub mod Settled
use hub_nfts.Prelude.{Bool, true, false, Option, none, some, List, [], ◌∷◌, ◌++◌, select}
use hub_nfts.Effects.{
  M, Result, ok, err, fault, ◌>>=◌, ◌>>◌, pure, connect, query_jobs, set_job_status, pop_job,
  attempt, enqueue, find_job, Job, JobStatus, JobStore, JobTracking,
}
use hub_nfts.Background.Errors.{TaskError}
use hub_nfts.Background.Process.{process_task}

-- Steps of the worker raise no error of their own.
abbrev pub Work : Type 0 → Type 0
Work A = M TaskError A

abbrev pub is_taken : JobStatus → Bool
is_taken JobStatus.queued = false
is_taken JobStatus.processing = true
is_taken JobStatus.completed = true
is_taken JobStatus.failed = false

abbrev pub is_failed : JobStatus → Bool
is_failed JobStatus.failed = true
is_failed _ = false

-- A job that another worker has taken is dropped.
unfoldable pub take_unless : Bool → Job → Work (Option Job)
take_unless true job = pure none
take_unless false job = do set_job_status job.id JobStatus.processing; pure (some job)

-- A job without a row is handed out all the same.
unfoldable pub take_tracked : Job → Option JobTracking → Work (Option Job)
take_tracked job none = pure (some job)
take_tracked job (some tracking) = take_unless (is_taken tracking.status) job

unfoldable pub take_popped : Option Job → Work (Option Job)
take_popped none = pure none
take_popped (some job) = query_jobs (find_job job.id) >>= take_tracked job

-- `JobQueue::dequeue`
unfoldable pub dequeue : Work (Option Job)
dequeue = do connect; popped ← pop_job; take_popped popped

-- `if let Err(e) = … { error!(…) }`
unfoldable pub logged : {A : Type 0} → Work A → Work (Unit {0})
logged m = do result ← attempt {E = TaskError} {F = TaskError} m; pure tt

-- The `match result` of the spawned task.
unfoldable pub settle_job : Job → Result TaskError (Unit {0}) → Work (Unit {0})
settle_job job (ok _) = logged (set_job_status job.id JobStatus.completed)
settle_job job (err e) = do
  logged (set_job_status job.id JobStatus.failed)
  logged (enqueue job.task)
settle_job job fault = do logged (set_job_status job.id JobStatus.failed); logged (enqueue job.task)

unfoldable pub process_tracked : Job → Result TaskError (Option JobTracking) → Work (Unit {0})
process_tracked job (ok (some _)) = attempt (process_task job.task) >>= settle_job job
process_tracked job (ok none) = pure tt
process_tracked job (err e) = pure tt
process_tracked job fault = pure tt

-- The task that `start` spawns for a job.
unfoldable pub process_job : Job → Work (Unit {0})
process_job job = attempt (query_jobs (find_job job.id)) >>= process_tracked job

unfoldable pub process_dequeued : Option Job → Work (Unit {0})
process_dequeued none = pure tt
process_dequeued (some job) = process_job job

-- One round of the loop of `start`, with the task that it spawns run at once.
unfoldable pub work_round : Work (Unit {0})
work_round = do job ← dequeue; process_dequeued job

-- `filter_failed_for_job_type(…)`, the oldest first: rows are kept newest first.
abbrev pub oldest_first : List JobTracking → List JobTracking
oldest_first [] = []
oldest_first (t ∷ ts) = oldest_first ts ++ (t ∷ [])

abbrev pub failed_jobs : JobStore → List JobTracking
failed_jobs jobs = select (λ t. is_failed t.status) (oldest_first jobs.trackings)

unfoldable pub settle_retry : JobTracking → Result TaskError (Unit {0}) → Work (Unit {0})
settle_retry t (ok _) = logged (set_job_status t.id JobStatus.completed)
settle_retry t (err e) = pure tt
settle_retry t fault = pure tt

unfoldable pub retry_each : List JobTracking → Work (Unit {0})
retry_each [] = pure tt
retry_each (t ∷ ts) = (attempt (process_task t.payload) >>= settle_retry t) >> retry_each ts

-- `Worker::retry`
unfoldable pub retry_failed : Work (Unit {0})
retry_failed = query_jobs failed_jobs >>= retry_each
