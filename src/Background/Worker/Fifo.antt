-- ===== src/Background/Worker/Fifo.antt =====
-- The job queue as a first-in-first-out queue of tasks.
use hub_nfts.Prelude.{
  ◌≡◌, refl, ap, ◌∙◌, Option, none, some, List, [], ◌∷◌, ◌++◌, Option-cases, inl, inr,
}
use hub_nfts.Inputs.{MetadataJsonUploadTask}
use hub_nfts.Effects.{World, Result, ok, err, fault, Job, JobStatus, pop_last, enqueue}
use hub_nfts.Background.Errors.{TaskError}
use hub_nfts.Background.Worker.{dequeue}
use hub_nfts.Background.Worker.Consistent.{IsConsistent, put_status-IsConsistent}
use hub_nfts.Background.Worker.Queue.{pop_last-IsOldest, pop_last-append, pushed-IsConsistent}
use hub_nfts.Background.Worker.Runs.{NeverFails, enqueue_runs, dequeue_runs, dequeue_empty}

pub data QueueOperation : Type 0 where
  put : MetadataJsonUploadTask → QueueOperation
  take : QueueOperation

-- The abstract queue: tasks are taken in the order in which they were put.
unfoldable pub fifo_results :
    List QueueOperation → List MetadataJsonUploadTask → List (Option MetadataJsonUploadTask)
fifo_results [] q = []
fifo_results (put task ∷ os) q = fifo_results os (q ++ (task ∷ []))
fifo_results (take ∷ os) [] = none ∷ fifo_results os []
fifo_results (take ∷ os) (task ∷ q) = some task ∷ fifo_results os q

abbrev pub task_of : Result TaskError (Option Job) → Option MetadataJsonUploadTask
task_of (ok none) = none
task_of (ok (some job)) = some job.task
task_of (err e) = none
task_of fault = none

-- The tasks that the service's own queue hands out.
unfoldable pub store_results : List QueueOperation → World → List (Option MetadataJsonUploadTask)
store_results [] w = []
store_results (put task ∷ os) w = store_results os (enqueue {E = TaskError} task w).1
store_results (take ∷ os) w = let (r, w') = dequeue w in task_of r ∷ store_results os w'

-- The tasks that wait, the oldest first.
abbrev pub waiting_tasks : List Job → List MetadataJsonUploadTask
waiting_tasks [] = []
waiting_tasks (j ∷ js) = waiting_tasks js ++ (j.task ∷ [])

waiting_tasks-append :
    (rest : List Job) (job : Job)
    → waiting_tasks (rest ++ (job ∷ [])) ≡ job.task ∷ waiting_tasks rest
waiting_tasks-append [] job = refl
waiting_tasks-append (j ∷ js) job = ap (λ ts. ts ++ (j.task ∷ [])) (waiting_tasks-append js job)

waiting_tasks-pop_last :
    (js : List Job) (job : Job) (rest : List Job)
    → pop_last js ≡ some (job, rest)
    → waiting_tasks js ≡ job.task ∷ waiting_tasks rest
waiting_tasks-pop_last js job rest e =
    ap waiting_tasks (pop_last-append js e) ∙ waiting_tasks-append rest job

take_none :
    (os : List QueueOperation) (js : List Job)
    → pop_last js ≡ none
    → none ∷ fifo_results os (waiting_tasks js) ≡ fifo_results (take ∷ os) (waiting_tasks js)
unfolding fifo_results
take_none os [] e = refl
take_none os (j ∷ js) e = absurd (cc)

-- In a consistent job store, and where no call of a service fails, enqueues and dequeues in any
-- order hand out the tasks of a first-in-first-out queue: no task is lost, repeated or overtaken,
-- and a dequeue of an empty queue hands out nothing.
pub store_results-fifo_results :
    (os : List QueueOperation) (w : World)
    → NeverFails w
    → IsConsistent w.jobs
    → store_results os w ≡ fifo_results os (waiting_tasks w.jobs.waiting)
unfolding store_results fifo_results
store_results-fifo_results [] w never c = refl
store_results-fifo_results (put task ∷ os) w never c =
    rw (enqueue_runs {E = TaskError} task w never)
      (store_results-fifo_results os _ never (pushed-IsConsistent task w.jobs c))
store_results-fifo_results (take ∷ os) w never c = elim (Option-cases (pop_last w.jobs.waiting)) [
  | inl e ↦ rw (dequeue_empty w never e) (
      ap (λ ts. none ∷ ts) (store_results-fifo_results os _ never c)
      ∙ take_none os w.jobs.waiting e)
  | inr ((job, rest), e) ↦
      let oldest = pop_last-IsOldest w.jobs c e in
      rw (dequeue_runs w job rest never c e, waiting_tasks-pop_last w.jobs.waiting job rest e)
        (ap (λ ts. some job.task ∷ ts)
          (store_results-fifo_results os _ never (
            put_status-IsConsistent job.id JobStatus.processing _ oldest.not_waiting
              oldest.consistent)))
]
