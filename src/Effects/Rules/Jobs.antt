-- ===== src/Effects/Rules/Jobs.antt =====
-- The rules for the job store, the upload service, and results that are looked at.
use hub_nfts.Prelude.{ℕ, ◌≡◌, Option, none, some, List, Bool-cases, Option-cases, inl, inr}
use hub_nfts.Inputs.{MetadataJsonInput, MetadataJsonUploadTask}
use hub_nfts.Effects.State.{World, Job, JobStatus, JobStore, JobTracking, UploadResponse}
use hub_nfts.Effects.Monad.{Result, ok, err, fault, M, ◌>>=◌, and_then}
use hub_nfts.Effects.Steps.{tick, call}
use hub_nfts.Effects.Jobs.{
  query_jobs, set_job_status, pop_job, upload, attempt, or_error, replaced, find_job, put_status,
  pop_last, track, push_job, tracked, pushed,
}
use hub_nfts.Effects.Rules.Control.{Wp}

module _ {E : Type 0} {A B : Type 0} where
  -- A call that the service does not refuse, or refuses for what it finds.
  pub call_then :
      (f : World → Option (A × World)) (k : A → M E B) {Q : Result E B → World → Type 0} {w : World}
      → Q fault (tick w)
      → ((a : A) (w' : World) → f (tick w) ≡ some (a, w') → Wp Q (k a) w')
      → Wp Q (call f >>= k) w
  unfolding ◌>>=◌ call
  call_then f k {w = w} h s = elim (Bool-cases (w.env.fails w.calls)) [
    | inl e ↦ record { holds = rw e h }
    | inr e ↦ elim (Option-cases (f (tick w))) [
      | inl r ↦ record { holds = rw (e, r) h }
      | inr ((a, w'), r) ↦ record { holds = rw (e, r) (s a w' r).holds }
    ]
  ]

  pub query_jobs_then :
      (f : JobStore → A) (k : A → M E B) {Q : Result E B → World → Type 0} {w : World}
      → Q fault (tick w)
      → Wp Q (k (f w.jobs)) (tick w)
      → Wp Q (query_jobs f >>= k) w
  unfolding ◌>>=◌ query_jobs
  query_jobs_then f k {w = w} h s = elim (Bool-cases (w.env.fails w.calls)) [
    | inl t ↦ record { holds = rw t h }
    | inr t ↦ record { holds = rw t s.holds }
  ]

module _ {E : Type 0} {B : Type 0} where
  pub set_job_status_then :
      (id : ℕ) (s : JobStatus) (k : Unit {0} → M E B) {Q : Result E B → World → Type 0} {w : World}
      → Q fault (tick w)
      → ((t : JobTracking)
          → find_job id w.jobs ≡ some t
          → Wp Q (k tt) (record (tick w) { jobs = put_status id s w.jobs }))
      → Wp Q (set_job_status id s >>= k) w
  unfolding ◌>>=◌ set_job_status
  set_job_status_then id s k {w = w} h g = elim (Bool-cases (w.env.fails w.calls)) [
    | inl e ↦ record { holds = rw e h }
    | inr e ↦ elim (Option-cases (find_job id w.jobs)) [
      | inl r ↦ record { holds = rw (e, r) h }
      | inr (t, r) ↦ record { holds = rw (e, r) (g t r).holds }
    ]
  ]

  pub pop_job_then :
      (k : Option Job → M E B) {Q : Result E B → World → Type 0} {w : World}
      → Q fault (tick w)
      → (pop_last w.jobs.waiting ≡ none → Wp Q (k none) (tick w))
      → ((job : Job) (rest : List Job)
          → pop_last w.jobs.waiting ≡ some (job, rest)
          → Wp Q (k (some job)) (record (tick w) { jobs = record (w.jobs) { waiting = rest } }))
      → Wp Q (pop_job >>= k) w
  unfolding ◌>>=◌ pop_job
  pop_job_then k {w = w} h n s = elim (Bool-cases (w.env.fails w.calls)) [
    | inl e ↦ record { holds = rw e h }
    | inr e ↦ elim (Option-cases (pop_last w.jobs.waiting)) [
      | inl r ↦ record { holds = rw (e, r) (n r).holds }
      | inr ((job, rest), r) ↦ record { holds = rw (e, r) (s job rest r).holds }
    ]
  ]

  pub upload_then :
      (json : MetadataJsonInput) (k : UploadResponse → M E B) {Q : Result E B → World → Type 0}
      {w : World}
      → Q fault (tick w)
      → Wp Q (k (w.env.upload json)) (tick w)
      → Wp Q (upload json >>= k) w
  unfolding ◌>>=◌ upload
  upload_then json k {w = w} h s = elim (Bool-cases (w.env.fails w.calls)) [
    | inl t ↦ record { holds = rw t h }
    | inr t ↦ record { holds = rw t s.holds }
  ]

  pub track_then :
      (task : MetadataJsonUploadTask) (k : ℕ → M E B) {Q : Result E B → World → Type 0} {w : World}
      → Q fault (tick w)
      → Wp Q (k w.jobs.next_id) (record (tick w) { jobs = tracked task w.jobs })
      → Wp Q (track task >>= k) w
  unfolding ◌>>=◌ track
  track_then task k {w = w} h s = elim (Bool-cases (w.env.fails w.calls)) [
    | inl t ↦ record { holds = rw t h }
    | inr t ↦ record { holds = rw t s.holds }
  ]

  pub push_job_then :
      (job : Job) (k : Unit {0} → M E B) {Q : Result E B → World → Type 0} {w : World}
      → Q fault (tick w)
      → Wp Q (k tt) (record (tick w) { jobs = pushed job w.jobs })
      → Wp Q (push_job job >>= k) w
  unfolding ◌>>=◌ push_job
  push_job_then job k {w = w} h s = elim (Bool-cases (w.env.fails w.calls)) [
    | inl t ↦ record { holds = rw t h }
    | inr t ↦ record { holds = rw t s.holds }
  ]

module _ {E F : Type 0} {A B : Type 0} where
  pub attempt_then :
      (m : M E A) (k : Result E A → M F B) {Q : Result F B → World → Type 0} {w : World}
      (S : Result E A → World → Type 0)
      → Wp S m w
      → ((r : Result E A) (w' : World) → S r w' → Wp Q (k r) w')
      → Wp Q (attempt m >>= k) w
  unfolding ◌>>=◌ attempt
  attempt_then m k S p s = record { holds = (s _ _ p.holds).holds }

  pub or_error_then :
      (error : F) (m : M E A) (k : A → M F B) {Q : Result F B → World → Type 0} {w : World}
      (S : Result E A → World → Type 0)
      → Wp S m w
      → ((w' : World) → S fault w' → Q (err error) w')
      → ((e : E) (w' : World) → S (err e) w' → Q (err error) w')
      → ((a : A) (w' : World) → S (ok a) w' → Wp Q (k a) w')
      → Wp Q (or_error error m >>= k) w
  unfolding ◌>>=◌ or_error
  or_error_then error m k {Q} {w} S p h g s = record { holds = go (m w).0 (m w).1 p.holds }
    where
      go :
          (r : Result E A) (w' : World)
          → S r w'
          → Q (and_then k (replaced error r) w').0 (and_then k (replaced error r) w').1
      go (ok a) w' x = (s a w' x).holds
      go (err e) w' x = g e w' x
      go fault w' x = h w' x
