-- ===== src/Background/Worker/Settled.antt =====
-- What becomes of a job that the worker takes.
use hub_nfts.Prelude.{
  ℕ, suc, ◌<◌, ◌≡◌, refl, sym, ap, ◌∙◌, subst, true, false, Option, none, some, List, ◌∷◌,
  find-update_where, Bool-cases, inl, inr, ==_iff, ◌==◌, arith,
}
use hub_nfts.Effects.{
  World, Result, ok, err, fault, ◌>>=◌, ◌>>◌, pure, Job, JobStatus, JobStore, JobTracking, pop_last,
  find_job, has_job_id, with_status, put_status, attempt, query_jobs, set_job_status, call, enqueue,
  connect, pop_job,
}
use hub_nfts.Background.Errors.{TaskError}
use hub_nfts.Background.Process.{process_task}
use hub_nfts.Background.Uploads.{Untouched}
use hub_nfts.Background.Uploads.Process.{process_task-Untouched}
use hub_nfts.Background.Worker.{
  logged, settle_job, process_tracked, process_job, process_dequeued, work_round, dequeue,
  take_popped,
}
use hub_nfts.Background.Worker.Consistent.{IsConsistent, NotWaiting}
use hub_nfts.Background.Worker.Queue.{pop_last-IsOldest}
use hub_nfts.Background.Worker.Runs.{NeverFails, enqueue_runs, dequeue_runs, enqueued, taken}

abbrev pub status_in : Option JobTracking → Option JobStatus
status_in none = none
status_in (some t) = some t.status

-- The job waits no more, and its row is completed.
abbrev Completed : Job → List Job → JobStore → Type 0
Completed job rest after =
    (after.waiting ≡ rest) × (status_in (find_job job.id after) ≡ some JobStatus.completed)

-- The row of the job is failed, and its task waits as the newest job, under the next number of the
-- store before, with a queued row of its own.
abbrev Requeued : Job → List Job → JobStore → JobStore → Type 0
Requeued job rest before after =
    (after.waiting ≡ (record { id = before.next_id; task = job.task }) ∷ rest)
    × (status_in (find_job job.id after) ≡ some JobStatus.failed)
    × (status_in (find_job before.next_id after) ≡ some JobStatus.queued)
    × (after.next_id ≡ suc before.next_id)

-- What becomes of a job is decided by the result of its task.
abbrev pub Settled : Job → List Job → JobStore → Result TaskError (Unit {0}) → JobStore → Type 0
Settled job rest before (ok _) after = Completed job rest after
Settled job rest before (err e) after = Requeued job rest before after
Settled job rest before fault after = Requeued job rest before after

-- The state in which the task of a job runs: four calls took the job, and one read its row.
abbrev pub task_state : Job → List Job → World → World
task_state job rest w = record w {
  jobs = taken job rest w.jobs;
  calls = suc (suc (suc (suc (suc w.calls))));
}

-- The row after a write of its status.
find_job-put_status :
    (id : ℕ) (s : JobStatus) (jobs : JobStore) {t : JobTracking}
    → find_job id jobs ≡ some t
    → find_job id (put_status id s jobs) ≡ some (with_status s t)
find_job-put_status id s jobs e =
    find-update_where (has_job_id id) (with_status s) jobs.trackings (λ y. refl) e

find_job-enqueued :
    (job : Job) (jobs : JobStore)
    → job.id < jobs.next_id
    → find_job job.id (enqueued job.task jobs) ≡ find_job job.id jobs
find_job-enqueued job jobs l = elim (Bool-cases (jobs.next_id == job.id)) [
  | inl e ↦ let same = (==_iff _ _).0 e in absurd (omega arith)
  | inr e ↦ rw e refl
]

find_job-new :
    (job : Job) (jobs : JobStore)
    → status_in (find_job jobs.next_id (enqueued job.task jobs)) ≡ some JobStatus.queued
find_job-new job jobs = elim (Bool-cases (jobs.next_id == jobs.next_id)) [
  | inl e ↦ rw e refl
  | inr e ↦ absurd (ground arith)
]

requeue-Requeued :
    (job : Job) (w : World) {t : JobTracking}
    → NeverFails w
    → job.id < w.jobs.next_id
    → find_job job.id w.jobs ≡ some t
    → Requeued job w.jobs.waiting w.jobs
        ((logged (set_job_status job.id JobStatus.failed) >> logged (enqueue job.task)) w).1.jobs
unfolding logged attempt set_job_status call pure ◌>>=◌
requeue-Requeued job w never l e =
    let marked = put_status job.id JobStatus.failed w.jobs in
    let next : World = record w { jobs = marked; calls = suc w.calls } in
    rw (never w.calls, e, enqueue_runs {E = TaskError} job.task next never)
      (
        refl,
        ap status_in
            (find_job-enqueued job marked l ∙ find_job-put_status job.id JobStatus.failed w.jobs e),
        find_job-new job marked,
        refl,
      )

settle_job-Settled :
    (job : Job) (r : Result TaskError (Unit {0})) (w : World) {t : JobTracking}
    → NeverFails w
    → job.id < w.jobs.next_id
    → find_job job.id w.jobs ≡ some t
    → Settled job w.jobs.waiting w.jobs r (settle_job job r w).1.jobs
unfolding settle_job logged attempt set_job_status call pure ◌>>=◌
settle_job-Settled job (ok _) w never l e =
    rw (never w.calls, e)
      (refl, ap status_in (find_job-put_status job.id JobStatus.completed w.jobs e))
settle_job-Settled job (err x) w never l e = requeue-Requeued job w never l e
settle_job-Settled job fault w never l e = requeue-Requeued job w never l e

process_job-Settled :
    (job : Job) (w : World) {t : JobTracking}
    → NeverFails w
    → job.id < w.jobs.next_id
    → find_job job.id w.jobs ≡ some t
    → Settled job w.jobs.waiting w.jobs
        (process_task job.task (record w { calls = suc w.calls })).0
        (process_job job w).1.jobs
unfolding process_job process_tracked attempt query_jobs call ◌>>=◌
process_job-Settled job w {t} never l e =
    rw (never w.calls, e)
      (subst (λ js. Settled job js.waiting js result (settle_job job result after).1.jobs) same
        (settle_job-Settled job result after {t = t}
          (λ n. subst (λ v. v.fails n ≡ false) (sym rest.4) (never n))
          (subst (λ j. job.id < j.next_id) (sym same) l)
          (subst (λ j. find_job job.id j ≡ some t) (sym same) e)))
  where
    next : World
    next = record w { calls = suc w.calls }

    result : Result TaskError (Unit {0})
    result = (process_task job.task next).0

    after : World
    after = (process_task job.task next).1

    rest : Untouched next after
    rest = process_task-Untouched job.task next

    same : after.jobs ≡ w.jobs
    same = rest.0

-- In a consistent job store, and where no call of a service fails, a round of the worker takes the
-- oldest waiting job and runs its task once the job is marked as in processing. Where that run
-- succeeds, the job's row is completed and the job waits no more. Where it raises an error, the
-- job's row is failed, and its task waits as the newest job, with a queued row, under the next
-- number of the store. The other waiting jobs stay in order.
pub work_round-Settled :
    (w : World) (job : Job) (rest : List Job)
    → NeverFails w
    → IsConsistent w.jobs
    → pop_last w.jobs.waiting ≡ some (job, rest)
    → Settled job rest w.jobs
        (process_task job.task (task_state job rest w)).0
        (work_round w).1.jobs
unfolding work_round process_dequeued ◌>>=◌
work_round-Settled w job rest never c e =
    let oldest = pop_last-IsOldest w.jobs c e in
    let row = oldest.tracked_row in
    rw (dequeue_runs w job rest never c e) (
      process_job-Settled job _ never oldest.numbered
        (find_job-put_status job.id JobStatus.processing w.jobs row.found))

-- A call that fails after the job was popped loses it: the round ends with the error, the job waits
-- no more, and its row still says queued, so that no retry finds it.
pub dequeue-loses :
    (w : World) (job : Job) (rest : List Job)
    → w.env.fails w.calls ≡ false
    → w.env.fails (suc w.calls) ≡ false
    → w.env.fails (suc (suc w.calls)) ≡ true
    → IsConsistent w.jobs
    → pop_last w.jobs.waiting ≡ some (job, rest)
    → let (result, after) = dequeue w in
      (result ≡ fault)
      × NotWaiting job.id after.jobs.waiting
      × (status_in (find_job job.id after.jobs) ≡ some JobStatus.queued)
unfolding dequeue take_popped pop_job query_jobs connect call ◌>>=◌
dequeue-loses w job rest a b f c e =
    let oldest = pop_last-IsOldest w.jobs c e in
    let row = oldest.tracked_row in
    rw (a, b, e, f)
      (refl, oldest.not_waiting, ap status_in row.found ∙ ap (λ s. some s) row.is_queued)
