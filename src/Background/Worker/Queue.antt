-- ===== src/Background/Worker/Queue.antt =====
-- The list of waiting jobs: it is pushed at one end and popped at the other.
use hub_nfts.Prelude.{
  ℕ, ◌<◌, ◌≡◌, refl, ap, ◌∙◌, subst, none, some, List, [], ◌∷◌, ◌++◌, All, All-map, arith,
  Option-cases, Bool-cases, inl, inr, ==_iff, ◌==◌,
}
use mathlib.Core.Option.{some-injective}
use hub_nfts.Inputs.{MetadataJsonUploadTask}
use hub_nfts.Effects.{Job, JobStatus, JobStore, JobTracking, pop_last, tracked, pushed}
use hub_nfts.Background.Worker.Consistent.{
  JobsBelow, IsQueued, IsConsistent, NotWaiting, JobsBelow-weaken, JobsBelow-All,
}

pub pop_last-none : (ys : List Job) → pop_last ys ≡ none → ys ≡ []
pop_last-none [] n = refl
pop_last-none (y ∷ ys) n = absurd (cc)

-- The job that is popped is at the end of the list.
pub pop_last-append :
    (js : List Job) {job : Job} {rest : List Job}
    → pop_last js ≡ some (job, rest)
    → js ≡ rest ++ (job ∷ [])
pop_last-append [] e = absurd (cc)
pop_last-append (x ∷ xs) {job} {rest} e = elim (Option-cases (pop_last xs)) [
  | inl n ↦
      let g : (x, []) ≡ (job, rest) = some-injective _ _ (rw n at e) in
      ap (λ z. x ∷ z) (pop_last-none xs n) ∙ ap (λ p. p.1 ++ (p.0 ∷ [])) g
  | inr ((last, others), s) ↦
      let g : (last, x ∷ others) ≡ (job, rest) = some-injective _ _ (rw s at e) in
      ap (λ z. x ∷ z) (pop_last-append xs s) ∙ ap (λ p. p.1 ++ (p.0 ∷ [])) g
]

All-last :
    (P : Job → Type 0) (rest : List Job) (job : Job)
    → All P (rest ++ (job ∷ []))
    → P job × All P rest
All-last P [] job h = (h.0, tt)
All-last P (x ∷ xs) job h = let (p, q) = All-last P xs job h.1 in (p, (h.0, q))

JobsBelow-last :
    (n : ℕ) (rest : List Job) (job : Job)
    → JobsBelow n (rest ++ (job ∷ []))
    → JobsBelow n rest × All (λ j. job.id < j.id) rest × (job.id < n)
JobsBelow-last n [] job h = (tt, tt, h.0)
JobsBelow-last n (x ∷ xs) job h =
    let (a, b, c) = JobsBelow-last x.id xs job h.1 in ((h.0, a), (c, b), omega arith)

-- Popping a consistent store: the job is the oldest, its row is queued, and the rest is consistent.
pub record IsOldest (jobs : JobStore) (job : Job) (rest : List Job) : Type 0 where
  pub tracked_row : IsQueued jobs.trackings job
  pub older : All (λ j. job.id < j.id) rest
  pub not_waiting : NotWaiting job.id rest
  pub numbered : job.id < jobs.next_id
  pub consistent : IsConsistent (record jobs { waiting = rest })

pub pop_last-IsOldest :
    (jobs : JobStore) {job : Job} {rest : List Job}
    → IsConsistent jobs
    → pop_last jobs.waiting ≡ some (job, rest)
    → IsOldest jobs job rest
pop_last-IsOldest jobs {job} {rest} c e = record {
  tracked_row = queue.0;
  older = order.1;
  not_waiting = All-map _ _ rest (λ j l same. omega arith) order.1;
  numbered = order.2;
  consistent = record { rows_below = c.rows_below; jobs_below = order.0; all_queued = queue.1 };
}
  where
    whole : jobs.waiting ≡ rest ++ (job ∷ [])
    whole = pop_last-append jobs.waiting e

    order : JobsBelow jobs.next_id rest × All (λ j. job.id < j.id) rest × (job.id < jobs.next_id)
    order = JobsBelow-last jobs.next_id rest job (subst (JobsBelow jobs.next_id) whole c.jobs_below)

    queue : IsQueued jobs.trackings job × All (IsQueued jobs.trackings) rest
    queue = All-last _ rest job (subst (All (IsQueued jobs.trackings)) whole c.all_queued)

-- An older job keeps its row when a row is added.
IsQueued-add :
    (t : JobTracking) (ts : List JobTracking) (job : Job)
    → job.id < t.id
    → IsQueued ts job
    → IsQueued (t ∷ ts) job
IsQueued-add t ts job l q = record {
  row = q.row;
  found = elim (Bool-cases (t.id == job.id)) [
    | inl e ↦ let same = (==_iff _ _).0 e in absurd (omega arith)
    | inr e ↦ rw e q.found
  ];
  same_task = q.same_task;
  is_queued = q.is_queued;
}

All-IsQueued_add :
    (t : JobTracking) (ts : List JobTracking) (js : List Job)
    → All (λ j. j.id < t.id) js
    → All (IsQueued ts) js
    → All (IsQueued (t ∷ ts)) js
All-IsQueued_add t ts [] l h = tt
All-IsQueued_add t ts (j ∷ js) l h = (IsQueued-add t ts j l.0 h.0, All-IsQueued_add t ts js l.1 h.1)

pub tracked-IsConsistent :
    (task : MetadataJsonUploadTask) (jobs : JobStore)
    → IsConsistent jobs
    → IsConsistent (tracked task jobs)
tracked-IsConsistent task jobs c = record {
  rows_below = (omega arith, c.rows_below);
  jobs_below = JobsBelow-weaken jobs.next_id _ jobs.waiting (omega arith) c.jobs_below;
  all_queued =
      All-IsQueued_add _ jobs.trackings jobs.waiting
        (JobsBelow-All jobs.next_id jobs.waiting c.jobs_below) c.all_queued;
}

-- `enqueue` as a whole.
pub pushed-IsConsistent :
    (task : MetadataJsonUploadTask) (jobs : JobStore)
    → IsConsistent jobs
    → IsConsistent (pushed (record { id = jobs.next_id; task = task }) (tracked task jobs))
pushed-IsConsistent task jobs c = record {
  rows_below = (omega arith, c.rows_below);
  jobs_below = (omega arith, c.jobs_below);
  all_queued = (
    record {
      row = record { id = jobs.next_id; payload = task; status = JobStatus.queued };
      found = elim (Bool-cases (jobs.next_id == jobs.next_id)) [
        | inl e ↦ rw e refl
        | inr e ↦ absurd (ground arith)
      ];
      same_task = refl;
      is_queued = refl;
    },
    (tracked-IsConsistent task jobs c).all_queued,
  );
}
