-- ===== src/Background/Worker/Bounds.antt =====
-- How many jobs wait.
use hub_nfts.Prelude.{
  ℕ, suc, ◌+◌, ◌≤◌, ◌≡◌, refl, sym, ap, subst, Bool, true, false, Option, none, some, List, [], ◌∷◌,
  ◌++◌, length, arith,
}
use hub_nfts.Inputs.{MetadataJsonUploadTask}
use hub_nfts.Effects.{
  World, Result, ok, err, fault, ◌>>◌, Wp, Job, JobStatus, JobTracking, enqueue, set_job_status,
  connect_then, query_jobs_then, track_then, push_job_then, pop_job_then, set_job_status_then,
  attempt_then, part_then, pure_end, by_then, weaken,
}
use hub_nfts.Background.Errors.{TaskError}
use hub_nfts.Background.Uploads.Process.{process_task-Untouched}
use hub_nfts.Background.Worker.{
  Work, dequeue, take_popped, take_tracked, take_unless, is_taken, logged, settle_job, process_job,
  process_tracked, process_dequeued, work_round, settle_retry, retry_each, retry_failed,
}
use hub_nfts.Background.Worker.Queue.{pop_last-append}
use hub_nfts.Background.Worker.Invariant.{
  JobOperation, enqueue_task, go_round, retry_all, job_step, run_jobs,
}

abbrev waiting_count : World → ℕ
waiting_count w = length w.jobs.waiting

-- At most `n` jobs wait.
abbrev AtMost : {E A : Type 0} → ℕ → Result E A → World → Type 0
AtMost n r w = waiting_count w ≤ n

enqueue-AtMost :
    {E : Type 0} (task : MetadataJsonUploadTask) (n : ℕ) (w : World)
    → waiting_count w ≤ n
    → Wp {E = E} (AtMost (suc n)) (enqueue task) w
unfolding enqueue
enqueue-AtMost task n w l = connect_then _ (omega arith) (
    track_then _ _ (omega arith)
      (by_then _ (push_job_then _ _ (omega arith) (pure_end _ (omega arith)))))

set_status-AtMost :
    (id : ℕ) (s : JobStatus) (n : ℕ) (w : World)
    → waiting_count w ≤ n
    → Wp {E = TaskError} (AtMost n) (set_job_status id s) w
set_status-AtMost id s n w l = by_then _ (set_job_status_then _ _ _ l λ t e. pure_end _ l)

logged-AtMost :
    {A : Type 0} (m : Work A) (n : ℕ) (w : World) → Wp (AtMost n) m w → Wp (AtMost n) (logged m) w
unfolding logged
logged-AtMost m n w p = attempt_then _ _ (AtMost n) p λ r v l. pure_end _ l

requeue-AtMost :
    (job : Job) (n : ℕ) (w : World)
    → waiting_count w ≤ n
    → Wp
        (AtMost (suc n))
        (logged (set_job_status job.id JobStatus.failed) >> logged (enqueue job.task))
        w
requeue-AtMost job n w l =
    part_then _ _ (AtMost n) (logged-AtMost _ n w (set_status-AtMost job.id JobStatus.failed n w l))
      (λ v k. omega arith) (λ e v k. omega arith)
      (λ a v k. logged-AtMost _ (suc n) v (enqueue-AtMost job.task n v k))

settle_job-AtMost :
    (job : Job) (r : Result TaskError (Unit {0})) (n : ℕ) (w : World)
    → waiting_count w ≤ n
    → Wp (AtMost (suc n)) (settle_job job r) w
unfolding settle_job
settle_job-AtMost job (ok _) n w l =
    logged-AtMost _ (suc n) w (set_status-AtMost job.id JobStatus.completed (suc n) w (omega arith))
settle_job-AtMost job (err e) n w l = requeue-AtMost job n w l
settle_job-AtMost job fault n w l = requeue-AtMost job n w l

process_tracked-AtMost :
    (job : Job) (r : Result TaskError (Option JobTracking)) (n : ℕ) (w : World)
    → waiting_count w ≤ n
    → Wp (AtMost (suc n)) (process_tracked job r) w
unfolding process_tracked
process_tracked-AtMost job (ok none) n w l = pure_end _ (omega arith)
process_tracked-AtMost job (err e) n w l = pure_end _ (omega arith)
process_tracked-AtMost job fault n w l = pure_end _ (omega arith)
process_tracked-AtMost job (ok (some t)) n w l =
    attempt_then _ _ (AtMost n)
      (record {
        holds = subst (λ j. length j.waiting ≤ n) (sym (process_task-Untouched job.task w).0) l;
      })
      (λ r v k. settle_job-AtMost job r n v k)

-- A job that is taken leaves room for it.
abbrev Taken : ℕ → Result TaskError (Option Job) → World → Type 0
Taken n (ok (some job)) w = suc (waiting_count w) ≤ n
Taken n (ok none) w = waiting_count w ≤ n
Taken n (err e) w = waiting_count w ≤ n
Taken n fault w = waiting_count w ≤ n

take_unless-Taken :
    (b : Bool) (job : Job) (n : ℕ) (w : World)
    → suc (waiting_count w) ≤ n
    → Wp (Taken n) (take_unless b job) w
unfolding take_unless
take_unless-Taken true job n w l = pure_end _ (omega arith)
take_unless-Taken false job n w l = set_job_status_then _ _ _ (omega arith) λ t e. pure_end _ l

take_tracked-Taken :
    (job : Job) (o : Option JobTracking) (n : ℕ) (w : World)
    → suc (waiting_count w) ≤ n
    → Wp (Taken n) (take_tracked job o) w
unfolding take_tracked
take_tracked-Taken job none n w l = pure_end _ l
take_tracked-Taken job (some t) n w l = take_unless-Taken (is_taken t.status) job n w l

length-last : (rest : List Job) (job : Job) → length (rest ++ (job ∷ [])) ≡ suc (length rest)
length-last [] job = refl
length-last (x ∷ xs) job = ap suc (length-last xs job)

dequeue-Taken : (n : ℕ) (w : World) → waiting_count w ≤ n → Wp (Taken n) dequeue w
unfolding dequeue take_popped
dequeue-Taken n w l = connect_then _ l (
    pop_job_then _ l (λ e. pure_end _ l)
      λ job rest e.
        let whole = ap length (pop_last-append w.jobs.waiting e) in
        let last = length-last rest job in
        query_jobs_then _ _ (omega arith) (take_tracked-Taken job _ n _ (omega arith)))

process_dequeued-AtMost :
    (o : Option Job) (n : ℕ) (w : World) → Taken n (ok o) w → Wp (AtMost n) (process_dequeued o) w
unfolding process_dequeued process_job
process_dequeued-AtMost none n w l = pure_end _ l
process_dequeued-AtMost (some job) n w l =
    weaken _ (λ r v k. omega arith)
      (attempt_then _ _ (AtMost (waiting_count w))
        (by_then _ (query_jobs_then _ _ (omega arith) (pure_end _ (omega arith))))
        λ r v k. process_tracked-AtMost job r (waiting_count w) v k)

work_round-AtMost : (n : ℕ) (w : World) → waiting_count w ≤ n → Wp (AtMost n) work_round w
unfolding work_round
work_round-AtMost n w l =
    part_then _ _ (Taken n) (dequeue-Taken n w l) (λ v k. k) (λ e v k. k)
      (λ o v k. process_dequeued-AtMost o n v k)

settle_retry-AtMost :
    (t : JobTracking) (r : Result TaskError (Unit {0})) (n : ℕ) (w : World)
    → waiting_count w ≤ n
    → Wp (AtMost n) (settle_retry t r) w
unfolding settle_retry
settle_retry-AtMost t (ok _) n w l =
    logged-AtMost _ n w (set_status-AtMost t.id JobStatus.completed n w l)
settle_retry-AtMost t (err e) n w l = pure_end _ l
settle_retry-AtMost t fault n w l = pure_end _ l

retry_each-AtMost :
    (ts : List JobTracking) (n : ℕ) (w : World)
    → waiting_count w ≤ n
    → Wp (AtMost n) (retry_each ts) w
unfolding retry_each
retry_each-AtMost [] n w l = pure_end _ l
retry_each-AtMost (t ∷ ts) n w l =
    part_then _ _ (AtMost n)
      (attempt_then _ _ (AtMost n)
        (record {
          holds = subst (λ j. length j.waiting ≤ n) (sym (process_task-Untouched t.payload w).0) l;
        })
        (λ r v k. settle_retry-AtMost t r n v k))
      (λ v k. k) (λ e v k. k) (λ a v k. retry_each-AtMost ts n v k)

retry_failed-AtMost : (n : ℕ) (w : World) → waiting_count w ≤ n → Wp (AtMost n) retry_failed w
unfolding retry_failed
retry_failed-AtMost n w l = query_jobs_then _ _ l (retry_each-AtMost _ n _ l)

-- The number of tasks that are enqueued by requests.
abbrev pub enqueues : List JobOperation → ℕ
enqueues [] = 0
enqueues (enqueue_task task ∷ os) = suc (enqueues os)
enqueues (go_round ∷ os) = enqueues os
enqueues (retry_all ∷ os) = enqueues os

run_jobs-AtMost :
    (os : List JobOperation) (n : ℕ) (w : World)
    → waiting_count w ≤ n
    → waiting_count (run_jobs os w) ≤ n + enqueues os
unfolding run_jobs
run_jobs-AtMost [] n w l = omega arith
run_jobs-AtMost (enqueue_task task ∷ os) n w l =
    let step = (enqueue-AtMost {E = TaskError} task n w l).holds in
    let rest = run_jobs-AtMost os (suc n) (job_step (enqueue_task task) w) step in omega arith
run_jobs-AtMost (go_round ∷ os) n w l =
    run_jobs-AtMost os n (job_step go_round w) (work_round-AtMost n w l).holds
run_jobs-AtMost (retry_all ∷ os) n w l =
    run_jobs-AtMost os n (job_step retry_all w) (retry_failed-AtMost n w l).holds

-- The worker and the retries make no work of their own: after any sequence of enqueues, rounds and
-- retries, with any calls failing, no more jobs wait than did before, and one for each enqueue.
pub run_jobs-bounded :
    (os : List JobOperation) (w : World)
    → length (run_jobs os w).jobs.waiting ≤ length w.jobs.waiting + enqueues os
run_jobs-bounded os w = run_jobs-AtMost os (waiting_count w) w (omega arith)
