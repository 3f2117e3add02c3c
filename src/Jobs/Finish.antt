-- ===== src/Jobs/Finish.antt =====
-- From a new job to its payment: the calls of apps/jobs/services.py one after the other.
use ishly_back.Prelude.{
  ℕ, ◌-◌, ◌*◌, ◌^◌, ◌≤◌, ◌<◌, ◌≡◌, ◌≢◌, ◌⊎◌, inl, inr, refl, ap, true, false, some, arith,
}
use ishly_back.Prelude.Table.{lookup, lookup-modify_self}
use ishly_back.Core.Commission.{share}
use ishly_back.Core.Errors.{Error}
use ishly_back.Data.Accounts.{User, UserRole}
use ishly_back.Data.Payments.{Wallet, fits}
use ishly_back.Data.Jobs.{Job, JobStatus}
use ishly_back.World.{World, Env, Result, ok, err, atomic}
use ishly_back.Payments.Posting.{released, paid}
use ishly_back.Jobs.Service.{accept_job, start_job, complete_job, accepted_by, started, completed}
use ishly_back.Jobs.Outcome.{save_job-ok, accept_job-Changed, start_job-Changed}
use ishly_back.Jobs.Escrow.{IsEscrowed, accept_job-IsEscrowed, start_job-IsEscrowed}
use ishly_back.Jobs.Payout.{complete_job_pays, rate}

-- Where a step goes, with the wallets as they were.
record Steps (job_id : ℕ) (job' : Job) (w w' : World) : Type 0 where
  there : lookup job_id w'.jobs ≡ some job'
  wallets : w'.wallets ≡ w.wallets
  escrowed : IsEscrowed w.db → IsEscrowed w'.db

accept_goes_through :
    (env : Env) (job_id user_id : ℕ) (user : User) (job : Job) (w : World)
    → user.role ≡ UserRole.worker
    → lookup job_id w.jobs ≡ some job
    → env.locked job_id ≡ false
    → job.status ≡ JobStatus.created
    → job.employer ≢ user_id
    → (accept_job env job_id user_id user w).0 ≡ ok (accepted_by user_id w.now job)
unfolding accept_job atomic
accept_goes_through env job_id user_id user job w role found free status other =
    ground (arith, save_job-ok env job_id (accepted_by user_id w.now) job w)

start_goes_through :
    (env : Env) (job_id user_id : ℕ) (job : Job) (w : World)
    → lookup job_id w.jobs ≡ some job
    → job.status ≡ JobStatus.accepted
    → job.worker ≡ some user_id
    → (start_job env job_id user_id w).0 ≡ ok (started w.now job)
unfolding start_job atomic
start_goes_through env job_id user_id job w found status assigned =
    ground (arith, save_job-ok env job_id (started w.now) job w)

accept_job-Steps :
    (env : Env) (job_id user_id : ℕ) (user : User) (job : Job) (w : World)
    → lookup job_id w.jobs ≡ some job
    → (accept_job env job_id user_id user w).0 ≡ ok (accepted_by user_id w.now job)
    → Steps job_id (accepted_by user_id w.now job) w (accept_job env job_id user_id user w).1
accept_job-Steps env job_id user_id user job w found h =
    let w' = (accept_job env job_id user_id user w).1 in
    let done : accept_job env job_id user_id user w ≡ (ok (accepted_by user_id w.now job), w') =
      ap (λ (r : Result Job). (r, w')) h in
    let (row, c, _, _, _, _) =
      accept_job-Changed env job_id user_id user (accepted_by user_id w.now job) w w' done in
    let self = lookup-modify_self job_id (accepted_by user_id w.now) w.jobs found in
    record {
      there = ground (arith, c.jobs, self);
      wallets = c.wallets;
      escrowed =
          accept_job-IsEscrowed env job_id user_id user (accepted_by user_id w.now job) w w' done;
    }

start_job-Steps :
    (env : Env) (job_id user_id : ℕ) (job : Job) (w : World)
    → lookup job_id w.jobs ≡ some job
    → (start_job env job_id user_id w).0 ≡ ok (started w.now job)
    → Steps job_id (started w.now job) w (start_job env job_id user_id w).1
start_job-Steps env job_id user_id job w found h =
    let w' = (start_job env job_id user_id w).1 in
    let done : start_job env job_id user_id w ≡ (ok (started w.now job), w') =
      ap (λ (r : Result Job). (r, w')) h in
    let (row, c, _, _) = start_job-Changed env job_id user_id (started w.now job) w w' done in
    let self = lookup-modify_self job_id (started w.now) w.jobs found in
    record {
      there = ground (arith, c.jobs, self);
      wallets = c.wallets;
      escrowed = start_job-IsEscrowed env job_id user_id (started w.now job) w w' done;
    }

-- the world after a worker accepted and started a job
abbrev under_way : Env → ℕ → ℕ → User → World → World
under_way env job_id user_id user w =
    (start_job env job_id user_id (accept_job env job_id user_id user w).1).1

-- From a new job to its payment: if a worker other than its employer accepts it, then starts it, both
-- calls go through. The employer's completion then raises the error of an unsupported lock and changes
-- nothing where the database cannot lock the nullable side of a join, as PostgreSQL; where it can, it
-- goes through, the job ends completed, its price is gone from the employer's held balance, and the
-- worker has the price less the rounded-down commission. This is from a database where wallets hold
-- what open jobs cost, with no lock on the row, a rate of at most 100 percent, a wallet for both, and
-- columns that the new amounts fit.
pub job_can_finish :
    (env : Env) (job_id employer_id worker_id : ℕ) (employer worker : User) (job : Job)
    (er wr : Wallet) (w : World)
    → IsEscrowed w.db
    → lookup job_id w.jobs ≡ some job
    → job.status ≡ JobStatus.created
    → job.employer ≡ employer_id
    → employer_id ≢ worker_id
    → employer.role ≡ UserRole.employer
    → worker.role ≡ UserRole.worker
    → env.locked job_id ≡ false
    → lookup employer_id w.wallets ≡ some er
    → lookup worker_id w.wallets ≡ some wr
    → rate env ≤ 100
    → job.price * rate env < 2 ^ 53
    → fits (released er job.price er) ≡ true
    → fits (paid wr (job.price - share job.price (rate env)) wr) ≡ true
    → let (a, u) = accept_job env job_id worker_id worker w in
      let (b, v) = start_job env job_id worker_id u in
      let (r, w') = complete_job env job_id employer_id employer v in
      (a ≡ ok (accepted_by worker_id w.now job))
      × (b ≡ ok (started u.now (accepted_by worker_id w.now job)))
      × (((env.locks_nullable ≡ false) × (r ≡ err Error.not_supported) × (w' ≡ v))
          ⊎ ((env.locks_nullable ≡ true)
              × ((job' : Job) × (r ≡ ok job')
                  × (lookup job_id w'.jobs ≡ some job')
                  × (job'.status ≡ JobStatus.completed)
                  × (job'.worker ≡ some worker_id)
                  × (lookup employer_id w'.wallets ≡ some (released er job.price er))
                  × (lookup worker_id w'.wallets
                      ≡ some (paid wr (job.price - share job.price (rate env)) wr)))))
job_can_finish env job_id employer_id worker_id employer worker job er wr w s found status own other
      er_role wr_role free fe fw le small room room' =
    let accepted = accepted_by worker_id w.now job in
    let u = (accept_job env job_id worker_id worker w).1 in
    let v = under_way env job_id worker_id worker w in
    let a =
      accept_goes_through env job_id worker_id worker job w wr_role found free status
        (ground (arith, own)) in
    let first = accept_job-Steps env job_id worker_id worker job w found a in
    let b = start_goes_through env job_id worker_id accepted u first.there refl refl in
    let second = start_job-Steps env job_id worker_id accepted u first.there b in
    let job' = started u.now accepted in
    elim (complete_job_pays env job_id employer_id employer job' worker_id er wr v
      (second.escrowed (first.escrowed s)) er_role second.there own refl refl
      (ground (arith, other)) (ground (arith, second.wallets, first.wallets, fe))
      (ground (arith, second.wallets, first.wallets, fw)) le small room room') [
        | inl cannot ↦ (a, b, inl cannot)
        | inr (locks, done, there, left, gained) ↦
            (a, b, inr (locks, (completed v.now job', done, there, refl, refl, left, gained)))
      ]
