-- ===== src/Jobs/Status.antt =====
-- The life of a job under the four calls that change one.
use ishly_back.Prelude.{
  ℕ, ◌≡◌, ◌≢◌, refl, ◌⊎◌, inl, inr, false, String, some, List, [], ◌∷◌, arith, ap, ◌∙◌,
}
use ishly_back.Prelude.Table.{Table, lookup, modify, lookup-modify}
use ishly_back.Data.Accounts.{User}
use ishly_back.Data.Jobs.{Job, JobStatus, can_be_cancelled}
use ishly_back.World.{World, Env}
use ishly_back.World.Atomic.{outcome}
use ishly_back.Payments.Posting.{release_job_payment-Released, refund_job-Posted}
use ishly_back.Jobs.Service.{
  accept_job, start_job, complete_job, cancel_job, accepted_by, started, completed, cancelled,
}
use ishly_back.Jobs.Outcome.{
  accept_job-Changed, start_job-Changed, complete_job-IsCompletion, cancel_job-IsCancellation,
}
use ishly_back.Jobs.Rollback.{
  accept_job_rollback, start_job_rollback, complete_job_rollback, cancel_job_rollback,
}

-- The calls on a job that is there.
pub data Act : Type 0 where
  accept : ℕ → ℕ → User → Act
  start : ℕ → ℕ → Act
  complete : ℕ → ℕ → User → Act
  cancel : ℕ → ℕ → String → Act

unfoldable pub perform : Env → Act → World → World
perform env (accept job_id user_id user) w = (accept_job env job_id user_id user w).1
perform env (start job_id user_id) w = (start_job env job_id user_id w).1
perform env (complete job_id user_id user) w = (complete_job env job_id user_id user w).1
perform env (cancel job_id user_id reason) w = (cancel_job env job_id user_id reason w).1

unfoldable pub perform_all : List (Env × Act) → World → World
perform_all [] w = w
perform_all ((env, act) ∷ acts) w = perform_all acts (perform env act w)

-- The arrows of the lifecycle, with what each of them needs and the columns it sets.
pub data Move (job job' : Job) : Type 0 where
  stay : job' ≡ job → Move job job'
  accepts :
      (worker now : ℕ)
      → job.status ≡ JobStatus.created
      → job.employer ≢ worker
      → job'
        ≡ record job { worker = some worker; status = JobStatus.accepted; accepted_at = some now }
      → Move job job'
  starts :
      (worker now : ℕ)
      → job.status ≡ JobStatus.accepted
      → job.worker ≡ some worker
      → job' ≡ record job { status = JobStatus.in_progress; started_at = some now }
      → Move job job'
  completes :
      (now worker : ℕ)
      → job.status ≡ JobStatus.in_progress
      → job.worker ≡ some worker
      → job' ≡ record job { status = JobStatus.completed; completed_at = some now }
      → Move job job'
  cancels :
      (now : ℕ) (reason : String)
      → job.status ≢ JobStatus.completed
      → job.status ≢ JobStatus.cancelled
      → job' ≡ record job {
        status = JobStatus.cancelled;
        cancelled_at = some now;
        cancel_reason = reason;
      }
      → Move job job'

-- The row of `k` after the one row `i` was changed.
row_after :
    (k i : ℕ) (change : Job → Job) (jobs : Table Job) (row job : Job)
    → lookup i jobs ≡ some row
    → lookup k jobs ≡ some job
    → ((k ≡ i) × (job ≡ row) × (lookup k (modify i change jobs) ≡ some (change job)))
      ⊎ (lookup k (modify i change jobs) ≡ some job)
row_after k i change jobs row job fi fk = grind (arith, lookup-modify k i change jobs)

-- Where the job `k` went.
abbrev pub Moved : ℕ → Job → World → Type 0
Moved k job w' = (job' : Job) × (lookup k w'.jobs ≡ some job') × Move job job'

module _ (k : ℕ) (job : Job) (w : World) (here : lookup k w.jobs ≡ some job) where
  rolled_back : (w' : World) → w'.db ≡ w.db → Moved k job w'
  rolled_back w' e = (job, ground (arith, e), stay refl)

  changed :
      (i : ℕ) (change : Job → Job) (row : Job) (w' : World)
      → lookup i w.jobs ≡ some row
      → w'.jobs ≡ modify i change w.jobs
      → Move row (change row)
      → Moved k job w'
  changed i change row w' found jobs m = elim (row_after k i change w.jobs row job found here) [
    | inl (_, same, e) ↦ (change job, ap (lookup k) jobs ∙ e, rw same m)
    | inr e ↦ (job, ap (lookup k) jobs ∙ e, stay refl)
  ]

  module _ (env : Env) where
    accept-Moved : (i user_id : ℕ) (user : User) → Moved k job (accept_job env i user_id user w).1
    accept-Moved i user_id user = elim (outcome (accept_job env i user_id user w)) [
      | inr (e, w', h) ↦
          rolled_back (accept_job env i user_id user w).1
            (accept_job_rollback env w i user_id user (ap (λ r. r.0) h))
      | inl (a, w', h) ↦
          let (row, c, status, other, _, _) = accept_job-Changed env i user_id user a w w' h in
          rw h (
            changed i (accepted_by user_id w.now) row w' c.found c.jobs
              (accepts user_id w.now status other refl))
    ]

    start-Moved : (i user_id : ℕ) → Moved k job (start_job env i user_id w).1
    start-Moved i user_id = elim (outcome (start_job env i user_id w)) [
      | inr (e, w', h) ↦
          rolled_back (start_job env i user_id w).1
            (start_job_rollback env w i user_id (ap (λ r. r.0) h))
      | inl (a, w', h) ↦
          let (row, c, status, assigned) = start_job-Changed env i user_id a w w' h in
          rw h (
            changed i (started w.now) row w' c.found c.jobs
              (starts user_id w.now status assigned refl))
    ]

    complete-Moved :
        (i user_id : ℕ) (user : User) → Moved k job (complete_job env i user_id user w).1
    complete-Moved i user_id user = elim (outcome (complete_job env i user_id user w)) [
      | inr (e, w', h) ↦
          rolled_back (complete_job env i user_id user w).1
            (complete_job_rollback env w i user_id user (ap (λ r. r.0) h))
      | inl (a, w', h) ↦
          let c = complete_job-IsCompletion env i user_id user a w w' h in
          let r =
            release_job_payment-Released env i (completed w.now c.job) c.worker c.between c.after
              c.txs.0 c.txs.1 c.released in
          let jobs : w'.jobs ≡ modify i (completed w.now) w.jobs =
            ground (arith, c.same, r.second.world, r.first.world, c.saved.jobs) in
          rw h (
            changed i (completed w.now) c.job w' c.found jobs
              (completes w.now c.worker c.status c.assigned refl))
    ]

    cancel-Moved :
        (i user_id : ℕ) (reason : String) → Moved k job (cancel_job env i user_id reason w).1
    cancel-Moved i user_id reason = elim (outcome (cancel_job env i user_id reason w)) [
      | inr (e, w', h) ↦
          rolled_back (cancel_job env i user_id reason w).1
            (cancel_job_rollback env w i user_id reason (ap (λ r. r.0) h))
      | inl (a, w', h) ↦
          let c = cancel_job-IsCancellation env i user_id reason a w w' h in
          let (row, p) =
            refund_job-Posted i (cancelled w.now reason c.job) c.between c.after c.tx c.refunded in
          let jobs : w'.jobs ≡ modify i (cancelled w.now reason) w.jobs =
            ground (arith, c.same, p.world, c.saved.jobs) in
          rw h (
            changed i (cancelled w.now reason) c.job w' c.found jobs (
              cancels w.now reason (ground (arith, c.open_status)) (ground (arith, c.open_status))
                refl))
    ]

-- Whatever one call does, every job either stays as it is or takes one arrow of the lifecycle:
-- created to accepted by somebody else than its employer, accepted to in progress and in progress
-- to completed with a worker assigned, or from any of these three to cancelled. An arrow sets the
-- state, its time, and the worker or the reason, and no other column.
pub perform-Moved :
    (env : Env) (act : Act) (w : World) (k : ℕ) (job : Job)
    → lookup k w.jobs ≡ some job
    → Moved k job (perform env act w)
unfolding perform
perform-Moved env (accept i user_id user) w k job here =
    accept-Moved k job w here env i user_id user
perform-Moved env (start i user_id) w k job here = start-Moved k job w here env i user_id
perform-Moved env (complete i user_id user) w k job here =
    complete-Moved k job w here env i user_id user
perform-Moved env (cancel i user_id reason) w k job here =
    cancel-Moved k job w here env i user_id reason

-- What no call takes back: the terms and the employer of a job, the state of one that is over, and
-- the worker of one that was accepted.
pub record Keeps (job job' : Job) : Type 0 where
  pub fields : job'.fields ≡ job.fields
  pub employer : job'.employer ≡ job.employer
  pub over : can_be_cancelled job.status ≡ false → job' ≡ job
  pub worker :
      job.status ≢ JobStatus.created
      → (job'.worker ≡ job.worker) × (job'.status ≢ JobStatus.created)

Move-Keeps : {job job' : Job} → Move job job' → Keeps job job'
Move-Keeps (stay e) = ground arith
Move-Keeps (accepts worker now status other e) = ground arith
Move-Keeps (starts worker now status assigned e) = ground arith
Move-Keeps (completes now worker status assigned e) = ground arith
Move-Keeps (cancels now reason fresh live e) = ground arith

Keeps-trans : {a b c : Job} → Keeps a b → Keeps b c → Keeps a c
Keeps-trans f g = record {
  fields = g.fields ∙ f.fields;
  employer = g.employer ∙ f.employer;
  over = λ h. g.over (ap (λ (j : Job). can_be_cancelled j.status) (f.over h) ∙ h) ∙ f.over h;
  worker =
      λ h. let (same, on) = f.worker h in let (same', on') = g.worker on in (same' ∙ same, on');
}

-- Whatever calls follow one another, in any order and by any users: the terms and the employer of a
-- job never change; once accepted it keeps its worker; once completed or cancelled it does not
-- change at all.
pub perform_all-Keeps :
    (acts : List (Env × Act)) (w : World) (k : ℕ) (job : Job)
    → lookup k w.jobs ≡ some job
    → (job' : Job) × (lookup k (perform_all acts w).jobs ≡ some job') × Keeps job job'
unfolding perform_all
perform_all-Keeps [] w k job here = (job, here, Move-Keeps (stay refl))
perform_all-Keeps ((env, act) ∷ acts) w k job here =
    let (mid, there, m) = perform-Moved env act w k job here in
    let (last, end, keeps) = perform_all-Keeps acts (perform env act w) k mid there in
    (last, end, Keeps-trans (Move-Keeps m) keeps)
