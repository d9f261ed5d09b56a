-- ===== src/Tests/Jobs.antt =====
-- Witnesses and runs: the job queue, the worker and its tasks.
use hub_nfts.Prelude.{length, ◌≤◌, ℕ, ◌≡◌, refl, some, List, [], ◌∷◌, ◌==◌, arith}
use hub_nfts.Inputs.{MetadataJsonUploadTask, Caller}
use hub_nfts.Effects.{
  World, Wp, ok, fault, Job, JobStatus, JobTracking, find_job, call, update, update_row, execute,
  upload, or_error, query, ok_or, pure, send, ◌>>=◌,
}
use hub_nfts.Mutations.Common.{fetch_owner}
use hub_nfts.Background.Tasks.{
  after_create_collection, store_upload, project_owner, send_create_collection,
}
use hub_nfts.Background.Process.{process_task, after}
use hub_nfts.Background.Uploads.{Outcome}
use hub_nfts.Background.Uploads.Callers.{subject, Sends}
use hub_nfts.Background.Uploads.Process.{process_task-Outcome}
use hub_nfts.Background.Worker.{work_round, dequeue}
use hub_nfts.Background.Worker.Consistent.{IsConsistent, NotWaiting}
use hub_nfts.Background.Worker.Invariant.{
  JobOperation, enqueue_task, go_round, retry_all, run_jobs, run_jobs-IsConsistent,
}
use hub_nfts.Background.Worker.Bounds.{run_jobs-bounded}
use hub_nfts.Background.Worker.Fifo.{
  QueueOperation, put, take, store_results, fifo_results, waiting_tasks, store_results-fifo_results,
}
use hub_nfts.Background.Worker.Settled.{
  Settled, task_state, work_round-Settled, status_in, dequeue-loses,
}
use hub_nfts.Tests.Example.{env, world, metadata}

abbrev task : ℕ → MetadataJsonUploadTask
task id = record { metadata_json = metadata; caller = Caller.create_collection id }

abbrev row : ℕ → JobTracking
row n = record { id = n; payload = task 10; status = JobStatus.queued }

abbrev waiting_job : ℕ → Job
waiting_job n = record { id = n; task = task 10 }

-- Two jobs wait.
abbrev busy : World
busy = record world {
  jobs = record {
    trackings = row 2 ∷ row 1 ∷ [];
    next_id = 3;
    waiting = waiting_job 2 ∷ waiting_job 1 ∷ [];
  };
}

busy-IsConsistent : IsConsistent busy.jobs
busy-IsConsistent = record {
  rows_below = (omega arith, (omega arith, tt));
  jobs_below = (omega arith, (omega arith, tt));
  all_queued = (
    record { row = row 2; found = refl; same_task = refl; is_queued = refl },
    (record { row = row 1; found = refl; same_task = refl; is_queued = refl }, tt),
  );
}

abbrev operations : List JobOperation
operations = go_round ∷ enqueue_task (task 11) ∷ go_round ∷ retry_all ∷ []

-- Some calls fail.
abbrev faulty : World
faulty = record busy { env = record env { fails = λ n. n == 7 } }

run_jobs-IsConsistent_example : IsConsistent (run_jobs operations faulty).jobs
run_jobs-IsConsistent_example = run_jobs-IsConsistent operations faulty busy-IsConsistent

run_jobs-bounded_example : length (run_jobs operations faulty).jobs.waiting ≤ 3
run_jobs-bounded_example = run_jobs-bounded operations faulty

abbrev uses : List QueueOperation
uses = take ∷ put (task 11) ∷ take ∷ take ∷ take ∷ []

store_results-fifo_results_example :
    store_results uses busy ≡ fifo_results uses (waiting_tasks busy.jobs.waiting)
store_results-fifo_results_example =
    store_results-fifo_results uses busy (λ n. refl) busy-IsConsistent

work_round-Settled_example :
    Settled
      (waiting_job 1)
      (waiting_job 2 ∷ [])
      busy.jobs
      (process_task (task 10) (task_state (waiting_job 1) (waiting_job 2 ∷ []) busy)).0
      (work_round busy).1.jobs
work_round-Settled_example =
    work_round-Settled busy (waiting_job 1) (waiting_job 2 ∷ []) (λ n. refl) busy-IsConsistent refl

-- The third call fails.
abbrev failing_read : World
failing_read = record busy { env = record env { fails = λ n. n == 2 } }

dequeue-loses_example :
    let (result, after) = dequeue failing_read in
    (result ≡ fault)
    × NotWaiting 1 after.jobs.waiting
    × (status_in (find_job 1 after.jobs) ≡ some JobStatus.queued)
dequeue-loses_example =
    dequeue-loses failing_read (waiting_job 1) (waiting_job 2 ∷ []) refl refl refl busy-IsConsistent
      refl

process_task-Outcome_example :
    Wp
      (Outcome
        (Sends (Caller.create_collection 10) (env.upload metadata))
        (env.upload metadata)
        (subject (Caller.create_collection 10) busy.db)
        busy)
      (process_task (task 10))
      busy
process_task-Outcome_example = process_task-Outcome (task 10) busy

-- The task of the collection succeeds.
process_task-runs : (process_task (task 10) busy).0 ≡ ok tt
unfolding process_task after after_create_collection store_upload project_owner
    send_create_collection fetch_owner upload or_error update update_row execute query send ok_or
    pure call ◌>>=◌
process_task-runs = refl
