-- ===== src/Background/Worker/Retries.antt =====
-- The retry of failed jobs keeps the job store consistent, whatever fails.
use hub_nfts.Prelude.{
  ℕ, ◌<◌, ◌≡◌, ◌≢◌, refl, sym, ap, ◌∙◌, subst, true, false, some, List, [], ◌∷◌, find, All, All-map,
  All-append, All-select, arith, Bool-cases, inl, inr, ==_iff, ◌==◌,
}
use mathlib.Core.Option.{some-injective}
use hub_nfts.Effects.{
  World, Result, ok, err, fault, Wp, Job, JobStatus, JobStore, JobTracking, has_job_id,
  query_jobs_then, set_job_status_then, attempt_then, part_then, pure_end, by_then, weaken,
}
use hub_nfts.Background.Errors.{TaskError}
use hub_nfts.Background.Uploads.Process.{process_task-Untouched}
use hub_nfts.Background.Worker.{
  logged, is_failed, oldest_first, failed_jobs, settle_retry, retry_each, retry_failed,
}
use hub_nfts.Background.Worker.Consistent.{
  RowsBelow, IsConsistent, IsQueued, NotWaiting, put_status-IsConsistent,
}
use hub_nfts.Background.Worker.Keeps.{Keeps}

-- A row that is found by its number is the row itself.
abbrev IsFound : List JobTracking → JobTracking → Type 0
IsFound ts t = find (has_job_id t.id) ts ≡ some t

rows-IsFound_after :
    (x : JobTracking) (xs ts : List JobTracking)
    → RowsBelow x.id xs
    → All (IsFound ts) xs
    → All (IsFound (x ∷ ts)) xs
rows-IsFound_after x [] ts b h = tt
rows-IsFound_after x (y ∷ ys) ts b h = (
  elim (Bool-cases (x.id == y.id)) [
    | inl e ↦ let same = (==_iff _ _).0 e in absurd (omega arith)
    | inr e ↦ rw e h.0
  ],
  rows-IsFound_after x ys ts (RowsBelow-weaken y.id x.id ys b.0 b.1) h.1,
)
  where
    RowsBelow-weaken : (m n : ℕ) (zs : List JobTracking) → m < n → RowsBelow m zs → RowsBelow n zs
    RowsBelow-weaken m n [] l r = tt
    RowsBelow-weaken m n (z ∷ zs) l r = (omega arith, r.1)

rows-IsFound : (n : ℕ) (ts : List JobTracking) → RowsBelow n ts → All (IsFound ts) ts
rows-IsFound n [] b = tt
rows-IsFound n (t ∷ ts) b = (
  elim (Bool-cases (t.id == t.id)) [ inl e ↦ rw e refl | inr e ↦ absurd (ground arith) ],
  rows-IsFound_after t ts ts b.1 (rows-IsFound t.id ts b.1),
)

All-oldest_first :
    (P : JobTracking → Type 0) (ts : List JobTracking) → All P ts → All P (oldest_first ts)
All-oldest_first P [] h = tt
All-oldest_first P (t ∷ ts) h =
    All-append P (oldest_first ts) (t ∷ []) (All-oldest_first P ts h.1) (h.0, tt)

-- A row that failed is not that of a waiting job.
failed_apart :
    (ts : List JobTracking) (t : JobTracking) (j : Job)
    → IsFound ts t
    → is_failed t.status ≡ true
    → IsQueued ts j
    → j.id ≢ t.id
failed_apart ts t j found failed q same = absurd (cc)
  where
    row : q.row ≡ t
    row = some-injective _ _ (sym q.found ∙ ap (λ id. find (has_job_id id) ts) same ∙ found)

    status : t.status ≡ JobStatus.queued
    status = ap (λ r. r.status) (sym row) ∙ q.is_queued

    clash : false ≡ true
    clash = ap is_failed (sym status) ∙ failed

failed_jobs-NotWaiting :
    (jobs : JobStore)
    → IsConsistent jobs
    → All (λ t. NotWaiting t.id jobs.waiting) (failed_jobs jobs)
failed_jobs-NotWaiting jobs c =
    All-map _ _ (failed_jobs jobs)
      (λ t (found, failed).
        All-map _ _ jobs.waiting (λ j q. failed_apart jobs.trackings t j found failed q)
          c.all_queued)
      (All-select (IsFound jobs.trackings) _ (oldest_first jobs.trackings)
        (All-oldest_first _ jobs.trackings (rows-IsFound jobs.next_id jobs.trackings c.rows_below)))

-- The store is consistent, with the same jobs waiting.
abbrev SameQueue : World → Result TaskError (Unit {0}) → World → Type 0
SameQueue w r w' = IsConsistent w'.jobs × (w'.jobs.waiting ≡ w.jobs.waiting)

settle_retry-SameQueue :
    (t : JobTracking) (r : Result TaskError (Unit {0})) (w : World)
    → IsConsistent w.jobs
    → NotWaiting t.id w.jobs.waiting
    → Wp (SameQueue w) (settle_retry t r) w
unfolding settle_retry logged
settle_retry-SameQueue t (err e) w c n = pure_end _ (c, refl)
settle_retry-SameQueue t fault w c n = pure_end _ (c, refl)
settle_retry-SameQueue t (ok _) w c n =
    attempt_then _ _ (SameQueue w)
      (by_then _ (
        set_job_status_then _ _ _ (c, refl)
          λ row found.
            pure_end _ (put_status-IsConsistent t.id JobStatus.completed w.jobs n c, refl)))
      (λ r w' h. pure_end _ h)

retry_each-Keeps :
    (ts : List JobTracking) (w : World)
    → IsConsistent w.jobs
    → All (λ t. NotWaiting t.id w.jobs.waiting) ts
    → Wp Keeps (retry_each ts) w
unfolding retry_each
retry_each-Keeps [] w c h = pure_end _ c
retry_each-Keeps (t ∷ ts) w c h =
    part_then _ _ (SameQueue w)
      (attempt_then _ _ (λ r w'. w'.jobs ≡ w.jobs)
        (record { holds = (process_task-Untouched t.payload w).0 })
        λ r w' e.
          weaken _ (λ r' u (c', q). (c', q ∙ ap (λ j. j.waiting) e))
            (settle_retry-SameQueue t r w' (subst IsConsistent (sym e) c)
              (subst (λ j. NotWaiting t.id j.waiting) (sym e) h.0)))
      (λ w' s. s.0) (λ e w' s. s.0)
      (λ a w' s.
        retry_each-Keeps ts w' s.0 (subst (λ js. All (λ x. NotWaiting x.id js) ts) (sym s.1) h.1))

pub retry_failed-Keeps : (w : World) → IsConsistent w.jobs → Wp Keeps retry_failed w
unfolding retry_failed
retry_failed-Keeps w c =
    query_jobs_then _ _ c (retry_each-Keeps _ _ c (failed_jobs-NotWaiting w.jobs c))
