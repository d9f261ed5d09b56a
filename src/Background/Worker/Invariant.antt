-- ===== src/Background/Worker/Invariant.antt =====
-- Runs of the queue's operations.
use hub_nfts.Prelude.{List, [], ◌∷◌}
use hub_nfts.Inputs.{MetadataJsonUploadTask}
use hub_nfts.Effects.{World, enqueue}
use hub_nfts.Background.Errors.{TaskError}
use hub_nfts.Background.Worker.{work_round, retry_failed}
use hub_nfts.Background.Worker.Consistent.{IsConsistent}
use hub_nfts.Background.Worker.Keeps.{enqueue-Keeps, work_round-Keeps}
use hub_nfts.Background.Worker.Retries.{retry_failed-Keeps}

-- A request enqueues a task, the worker goes round, and the service retries what failed.
pub data JobOperation : Type 0 where
  enqueue_task : MetadataJsonUploadTask → JobOperation
  go_round retry_all : JobOperation

abbrev pub job_step : JobOperation → World → World
job_step (enqueue_task task) w = (enqueue {E = TaskError} task w).1
job_step go_round w = (work_round w).1
job_step retry_all w = (retry_failed w).1

unfoldable pub run_jobs : List JobOperation → World → World
run_jobs [] w = w
run_jobs (o ∷ os) w = run_jobs os (job_step o w)

job_step-IsConsistent :
    (o : JobOperation) (w : World) → IsConsistent w.jobs → IsConsistent (job_step o w).jobs
job_step-IsConsistent (enqueue_task task) w c = (enqueue-Keeps {E = TaskError} task w c).holds
job_step-IsConsistent go_round w c = (work_round-Keeps w c).holds
job_step-IsConsistent retry_all w c = (retry_failed-Keeps w c).holds

-- From a consistent job store, every sequence of enqueues, rounds of the worker and retries, with
-- any calls failing, leads to a consistent one: the rows and the waiting jobs are numbered by age,
-- and the row of every waiting job is there, carries its task, and is queued.
pub run_jobs-IsConsistent :
    (os : List JobOperation) (w : World) → IsConsistent w.jobs → IsConsistent (run_jobs os w).jobs
unfolding run_jobs
run_jobs-IsConsistent [] w c = c
run_jobs-IsConsistent (o ∷ os) w c =
    run_jobs-IsConsistent os (job_step o w) (job_step-IsConsistent o w c)
