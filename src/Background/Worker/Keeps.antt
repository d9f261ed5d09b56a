-- ===== src/Background/Worker/Keeps.antt =====
-- The operations of the job store keep it consistent, whatever fails.
use hub_nfts.Prelude.{ℕ, ◌≡◌, sym, subst, Bool, true, false, Option, none, some}
use hub_nfts.Inputs.{MetadataJsonUploadTask}
use hub_nfts.Effects.{
  World, Result, ok, err, fault, ◌>>◌, Wp, Job, JobStatus, JobTracking, enqueue, set_job_status,
  connect_then, query_jobs_then, track_then, push_job_then, pop_job_then, set_job_status_then,
  attempt_then, part_then, pure_end, by_then, weaken,
}
use hub_nfts.Background.Errors.{TaskError}
use hub_nfts.Background.Uploads.Process.{process_task-Untouched}
use hub_nfts.Background.Worker.{
  Work, dequeue, take_popped, take_tracked, take_unless, is_taken, logged, settle_job, process_job,
  process_tracked, process_dequeued, work_round,
}
use hub_nfts.Background.Worker.Consistent.{IsConsistent, NotWaiting, put_status-IsConsistent}
use hub_nfts.Background.Worker.Queue.{pop_last-IsOldest, tracked-IsConsistent, pushed-IsConsistent}

abbrev pub Keeps : {E A : Type 0} → Result E A → World → Type 0
Keeps r w' = IsConsistent w'.jobs

-- A consistent store, in which this number does not wait.
abbrev pub Settles : {E A : Type 0} → ℕ → Result E A → World → Type 0
Settles id r w' = IsConsistent w'.jobs × NotWaiting id w'.jobs.waiting

pub enqueue-Keeps :
    {E : Type 0} (task : MetadataJsonUploadTask) (w : World)
    → IsConsistent w.jobs
    → Wp {E = E} Keeps (enqueue task) w
unfolding enqueue
enqueue-Keeps task w c = connect_then _ c (
    track_then _ _ c (
      by_then _ (
        push_job_then _ _ (tracked-IsConsistent task w.jobs c)
          (pure_end _ (pushed-IsConsistent task w.jobs c)))))

-- What is dequeued does not wait any more.
abbrev pub Dequeued : Result TaskError (Option Job) → World → Type 0
Dequeued (ok none) w' = IsConsistent w'.jobs
Dequeued (ok (some job)) w' = IsConsistent w'.jobs × NotWaiting job.id w'.jobs.waiting
Dequeued (err e) w' = IsConsistent w'.jobs
Dequeued fault w' = IsConsistent w'.jobs

take_unless-Dequeued :
    (b : Bool) (job : Job) (w : World)
    → IsConsistent w.jobs
    → NotWaiting job.id w.jobs.waiting
    → Wp Dequeued (take_unless b job) w
unfolding take_unless
take_unless-Dequeued true job w c n = pure_end _ c
take_unless-Dequeued false job w c n =
    set_job_status_then _ _ _ c
      λ t found. pure_end _ (put_status-IsConsistent job.id JobStatus.processing w.jobs n c, n)

take_tracked-Dequeued :
    (job : Job) (o : Option JobTracking) (w : World)
    → IsConsistent w.jobs
    → NotWaiting job.id w.jobs.waiting
    → Wp Dequeued (take_tracked job o) w
unfolding take_tracked
take_tracked-Dequeued job none w c n = pure_end _ (c, n)
take_tracked-Dequeued job (some t) w c n = take_unless-Dequeued (is_taken t.status) job w c n

dequeue-Dequeued : (w : World) → IsConsistent w.jobs → Wp Dequeued dequeue w
unfolding dequeue take_popped
dequeue-Dequeued w c = connect_then _ c (
    pop_job_then _ c (λ e. pure_end _ c)
      λ job rest e.
        let oldest = pop_last-IsOldest w.jobs c e in
        query_jobs_then _ _ oldest.consistent
          (take_tracked-Dequeued job _ _ oldest.consistent oldest.not_waiting))

module _ {A : Type 0} where
  -- An error that is logged goes no further.
  logged_by :
      (m : Work A) (w : World) {P : World → Type 0}
      → Wp (λ r w'. P w') m w
      → Wp (λ r w'. P w') (logged m) w
  unfolding logged
  logged_by m w {P} p = attempt_then _ _ (λ r w'. P w') p λ r w' h. pure_end _ h

set_status-Settles :
    (id : ℕ) (s : JobStatus) (w : World)
    → IsConsistent w.jobs
    → NotWaiting id w.jobs.waiting
    → Wp {E = TaskError} (Settles id) (set_job_status id s) w
set_status-Settles id s w c n = by_then _ (
    set_job_status_then _ _ _ (c, n)
      λ t found. pure_end _ (put_status-IsConsistent id s w.jobs n c, n))

-- A task that failed: its row says so, and the task is enqueued again.
requeue-Keeps :
    (job : Job) (w : World)
    → IsConsistent w.jobs
    → NotWaiting job.id w.jobs.waiting
    → Wp Keeps (logged (set_job_status job.id JobStatus.failed) >> logged (enqueue job.task)) w
requeue-Keeps job w c n =
    part_then _ _ Keeps
      (logged_by _ w (weaken _ (λ r w' h. h.0) (set_status-Settles job.id JobStatus.failed w c n)))
      (λ w' h. h) (λ e w' h. h) (λ a w' h. logged_by _ w' (enqueue-Keeps job.task w' h))

settle_job-Keeps :
    (job : Job) (r : Result TaskError (Unit {0})) (w : World)
    → IsConsistent w.jobs
    → NotWaiting job.id w.jobs.waiting
    → Wp Keeps (settle_job job r) w
unfolding settle_job
settle_job-Keeps job (ok _) w c n =
    logged_by _ w (weaken _ (λ r w' h. h.0) (set_status-Settles job.id _ w c n))
settle_job-Keeps job (err e) w c n = requeue-Keeps job w c n
settle_job-Keeps job fault w c n = requeue-Keeps job w c n

process_tracked-Keeps :
    (job : Job) (r : Result TaskError (Option JobTracking)) (w : World)
    → IsConsistent w.jobs
    → NotWaiting job.id w.jobs.waiting
    → Wp Keeps (process_tracked job r) w
unfolding process_tracked
process_tracked-Keeps job (ok none) w c n = pure_end _ c
process_tracked-Keeps job (err e) w c n = pure_end _ c
process_tracked-Keeps job fault w c n = pure_end _ c
process_tracked-Keeps job (ok (some t)) w c n =
    attempt_then _ _ (λ r w'. w'.jobs ≡ w.jobs)
      (record { holds = (process_task-Untouched job.task w).0 })
      λ r w' e.
        settle_job-Keeps job r w' (subst IsConsistent (sym e) c)
          (subst (λ j. NotWaiting job.id j.waiting) (sym e) n)

process_dequeued-Keeps :
    (o : Option Job) (w : World) → Dequeued (ok o) w → Wp Keeps (process_dequeued o) w
unfolding process_dequeued process_job
process_dequeued-Keeps none w c = pure_end _ c
process_dequeued-Keeps (some job) w (c, n) =
    attempt_then _ _ (Settles job.id) (by_then _ (query_jobs_then _ _ (c, n) (pure_end _ (c, n))))
      λ r w' (c', n'). process_tracked-Keeps job r w' c' n'

pub work_round-Keeps : (w : World) → IsConsistent w.jobs → Wp Keeps work_round w
unfolding work_round
work_round-Keeps w c =
    part_then _ _ Dequeued (dequeue-Dequeued w c) (λ w' h. h) (λ e w' h. h)
      (λ o w' h. process_dequeued-Keeps o w' h)
