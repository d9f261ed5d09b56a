-- ===== src/Background/Worker/Consistent.antt =====
-- What the worker relies on in the job store: rows and waiting jobs are numbered by age, and the row
-- of a waiting job is queued.
use hub_nfts.Prelude.{
  ℕ, ◌<◌, ◌≡◌, ◌≢◌, sym, ◌∙◌, true, false, some, List, [], ◌∷◌, find, update_where, All, arith,
  ==_iff, find-update_other, Bool-cases, inl, inr, ◌==◌,
}
use hub_nfts.Effects.{Job, JobStatus, JobStore, JobTracking, has_job_id, with_status, put_status}

-- Newest first, with numbers below `n`.
abbrev pub RowsBelow : ℕ → List JobTracking → Type 0
RowsBelow n [] = Unit
RowsBelow n (t ∷ ts) = (t.id < n) × RowsBelow t.id ts

abbrev pub JobsBelow : ℕ → List Job → Type 0
JobsBelow n [] = Unit
JobsBelow n (j ∷ js) = (j.id < n) × JobsBelow j.id js

-- The row of a waiting job.
pub record IsQueued (trackings : List JobTracking) (job : Job) : Type 0 where
  pub row : JobTracking
  pub found : find (has_job_id job.id) trackings ≡ some row
  pub same_task : row.payload ≡ job.task
  pub is_queued : row.status ≡ JobStatus.queued

pub record IsConsistent (jobs : JobStore) : Type 0 where
  pub rows_below : RowsBelow jobs.next_id jobs.trackings
  pub jobs_below : JobsBelow jobs.next_id jobs.waiting
  pub all_queued : All (IsQueued jobs.trackings) jobs.waiting

-- No waiting job has this number.
abbrev pub NotWaiting : ℕ → List Job → Type 0
NotWaiting id js = All (λ j. j.id ≢ id) js

pub JobsBelow-weaken : (m n : ℕ) (js : List Job) → m < n → JobsBelow m js → JobsBelow n js
JobsBelow-weaken m n [] l h = tt
JobsBelow-weaken m n (j ∷ js) l h = (omega arith, h.1)

pub JobsBelow-All : (n : ℕ) (js : List Job) → JobsBelow n js → All (λ j. j.id < n) js
JobsBelow-All n [] h = tt
JobsBelow-All n (j ∷ js) h = (h.0, JobsBelow-All n js (JobsBelow-weaken j.id n js h.0 h.1))

RowsBelow-update :
    (n id : ℕ) (s : JobStatus) (ts : List JobTracking)
    → RowsBelow n ts
    → RowsBelow n (update_where (has_job_id id) (with_status s) ts)
RowsBelow-update n id s [] h = tt
RowsBelow-update n id s (t ∷ ts) h = elim (Bool-cases (t.id == id)) [
  | inl e ↦ rw e (h.0, RowsBelow-update t.id id s ts h.1)
  | inr e ↦ rw e (h.0, RowsBelow-update t.id id s ts h.1)
]

-- A job of another number keeps its row.
IsQueued-put_status :
    (id : ℕ) (s : JobStatus) (ts : List JobTracking) (job : Job)
    → job.id ≢ id
    → IsQueued ts job
    → IsQueued (update_where (has_job_id id) (with_status s) ts) job
IsQueued-put_status id s ts job other q = record {
  row = q.row;
  found = find-update_other (has_job_id job.id) (has_job_id id) (with_status s) ts apart ∙ q.found;
  same_task = q.same_task;
  is_queued = q.is_queued;
}
  where
    differs : (y : JobTracking) → (y.id == id) ≡ true → (y.id == job.id) ≡ false
    differs y e = elim (Bool-cases (y.id == job.id)) [
      | inl f ↦ absurd (other (sym ((==_iff _ _).0 f) ∙ (==_iff _ _).0 e))
      | inr f ↦ f
    ]

    apart :
        (y : JobTracking)
        → (y.id == id) ≡ true
        → ((y.id == job.id) ≡ false) × ((y.id == job.id) ≡ false)
    apart y e = (differs y e, differs y e)

All-IsQueued_put :
    (id : ℕ) (s : JobStatus) (ts : List JobTracking) (js : List Job)
    → NotWaiting id js
    → All (IsQueued ts) js
    → All (IsQueued (update_where (has_job_id id) (with_status s) ts)) js
All-IsQueued_put id s ts [] n h = tt
All-IsQueued_put id s ts (j ∷ js) n h =
    (IsQueued-put_status id s ts j n.0 h.0, All-IsQueued_put id s ts js n.1 h.1)

-- A status is written to a job that does not wait.
pub put_status-IsConsistent :
    (id : ℕ) (s : JobStatus) (jobs : JobStore)
    → NotWaiting id jobs.waiting
    → IsConsistent jobs
    → IsConsistent (put_status id s jobs)
put_status-IsConsistent id s jobs n c = record {
  rows_below = RowsBelow-update jobs.next_id id s jobs.trackings c.rows_below;
  jobs_below = c.jobs_below;
  all_queued = All-IsQueued_put id s jobs.trackings jobs.waiting n c.all_queued;
}
