-- ===== src/Background/Worker/Runs.antt =====
-- What the queue's operations do where no call fails.
use hub_nfts.Prelude.{ℕ, suc, ◌≡◌, refl, false, none, some, List}
use hub_nfts.Inputs.{MetadataJsonUploadTask}
use hub_nfts.Effects.{
  World, ok, Job, JobStatus, JobStore, ◌>>=◌, pure, call, connect, track, push_job, enqueue,
  query_jobs, set_job_status, pop_job, pop_last, tracked, pushed, put_status,
}
use hub_nfts.Background.Worker.{dequeue, take_popped, take_tracked, take_unless}
use hub_nfts.Background.Worker.Consistent.{IsConsistent}
use hub_nfts.Background.Worker.Queue.{pop_last-IsOldest}

abbrev pub NeverFails : World → Type 0
NeverFails w = (n : ℕ) → w.env.fails n ≡ false

abbrev pub enqueued : MetadataJsonUploadTask → JobStore → JobStore
enqueued task jobs = pushed (record { id = jobs.next_id; task = task }) (tracked task jobs)

abbrev pub taken : Job → List Job → JobStore → JobStore
taken job rest jobs = put_status job.id JobStatus.processing (record jobs { waiting = rest })

pub enqueue_runs :
    {E : Type 0} (task : MetadataJsonUploadTask) (w : World)
    → NeverFails w
    → enqueue {E = E} task w
      ≡ (ok tt, record w { jobs = enqueued task w.jobs; calls = suc (suc (suc w.calls)) })
unfolding enqueue track push_job connect call ◌>>=◌
enqueue_runs task w never = rw (never w.calls, never (suc w.calls), never (suc (suc w.calls))) refl

pub dequeue_runs :
    (w : World) (job : Job) (rest : List Job)
    → NeverFails w
    → IsConsistent w.jobs
    → pop_last w.jobs.waiting ≡ some (job, rest)
    → dequeue w ≡ (
      ok (some job),
      record w { jobs = taken job rest w.jobs; calls = suc (suc (suc (suc w.calls))) },
    )
unfolding dequeue take_popped take_tracked take_unless pop_job query_jobs set_job_status connect
    call pure ◌>>=◌
dequeue_runs w job rest never c e =
    let row = (pop_last-IsOldest w.jobs c e).tracked_row in
    rw
      (
        never w.calls,
        never (suc w.calls),
        e,
        never (suc (suc w.calls)),
        row.found,
        row.is_queued,
        never (suc (suc (suc w.calls))),
        row.found,
      )
      refl

pub dequeue_empty :
    (w : World)
    → NeverFails w
    → pop_last w.jobs.waiting ≡ none
    → dequeue w ≡ (ok none, record w { calls = suc (suc w.calls) })
unfolding dequeue take_popped pop_job connect call pure ◌>>=◌
dequeue_empty w never e = rw (never w.calls, never (suc w.calls), e) refl
