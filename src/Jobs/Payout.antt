-- ===== src/Jobs/Payout.antt =====
-- `JobService.complete_job` of apps/jobs/services.py, from the guards to the wallets.
use ishly_back.Prelude.{
  ℕ, ◌-◌, ◌*◌, ◌^◌, ◌≤◌, ◌<◌, ◌≡◌, ◌≢◌, ◌⊎◌, inl, inr, ap, true, false, none, some, arith, ==_refl,
  Bool-cases, refl,
}
use ishly_back.Prelude.Int.{ℤ, pos}
use ishly_back.Prelude.Table.{lookup, modify, lookup-modify, lookup-modify_self, total-lookup-le}
use ishly_back.Core.Errors.{Error}
use ishly_back.Core.Commission.{calculate_commission, calculate_commission_exact, share}
use ishly_back.Data.Accounts.{User, UserRole}
use ishly_back.Data.Payments.{Wallet, Transaction, fits}
use ishly_back.Data.Jobs.{Job, JobStatus, can_be_cancelled}
use ishly_back.World.{World, Env, ok, err, atomic}
use ishly_back.World.Atomic.{outcome}
use ishly_back.Payments.Wallets.{release_job_payment, save_wallet, create_transaction}
use ishly_back.Payments.Posting.{released, paid}
use ishly_back.Jobs.Service.{complete_job, completed, save_job}
use ishly_back.Jobs.Outcome.{save_job-ok, save_job-Saved}
use ishly_back.Jobs.Escrow.{IsEscrowed, price_held}

-- The job's price is part of what its employer holds, while the job is open.
pub price-le-held :
    (job_id : ℕ) (job : Job) (row : Wallet) (w : World)
    → IsEscrowed w.db
    → lookup job_id w.jobs ≡ some job
    → can_be_cancelled job.status ≡ true
    → lookup job.employer w.wallets ≡ some row
    → job.price ≤ row.held_balance
price-le-held job_id job row w s found opened owned = ground (
  arith,
  s job.employer,
  total-lookup-le (price_held job.employer) job_id w.jobs found,
  ==_refl job.employer,
)

module _ (env : Env) (job_id : ℕ) (job : Job) (worker : ℕ) (er wr : Wallet) (amount : ℕ) (w : World)
    (fe : lookup job.employer w.wallets ≡ some er) (fw : lookup worker w.wallets ≡ some wr)
    (other : worker ≢ job.employer) (covered : job.price ≤ er.held_balance)
    (payout : (calculate_commission env job.price none).1 ≡ pos amount)
    (room : fits (released er job.price er) ≡ true) (room' : fits (paid wr amount wr) ≡ true) where
  release_goes_through :
      (e : Error) (w' : World) → release_job_payment env job_id job worker w ≢ (err e, w')
  unfolding release_job_payment save_wallet create_transaction atomic
  release_goes_through e w' h =
      ground (arith, lookup-modify worker job.employer (released er job.price) w.wallets)

  -- The wallets after a release.
  pub record IsPaid (w' : World) : Type 0 where
    pub employer_left : lookup job.employer w'.wallets ≡ some (released er job.price er)
    pub worker_paid : lookup worker w'.wallets ≡ some (paid wr amount wr)
    pub jobs : w'.jobs ≡ w.jobs

  release_frame :
      (txs : Transaction × Transaction) (w' : World)
      → release_job_payment env job_id job worker w ≡ (ok txs, w')
      → IsPaid w'
  unfolding release_job_payment save_wallet create_transaction atomic
  release_frame txs w' h = record {
    employer_left = ground (
      arith,
      lookup-modify job.employer job.employer (released er job.price) w.wallets,
      lookup-modify worker job.employer (released er job.price) w.wallets,
      lookup-modify job.employer worker (paid wr amount)
          (modify job.employer (released er job.price) w.wallets),
    );
    worker_paid = ground (
      arith,
      lookup-modify worker job.employer (released er job.price) w.wallets,
      lookup-modify worker worker (paid wr amount)
          (modify job.employer (released er job.price) w.wallets),
    );
    jobs = ground (arith, lookup-modify worker job.employer (released er job.price) w.wallets);
  }

-- The commission rate that `complete_job` pays by.
abbrev pub rate : Env → ℕ
rate env = env.settings.platform_commission_percent

payout_exact :
    (env : Env) (price : ℕ)
    → rate env ≤ 100
    → price * rate env < 2 ^ 53
    → (calculate_commission env price none).1 ≡ pos (price - share price (rate env))
payout_exact env price le small =
    let (e, _, _) =
      calculate_commission_exact env price none (rate env) (inr (refl, refl)) le small in
    ap (λ (t : ℕ × ℤ). t.1) e

complete_job_unsupported :
    (env : Env) (job_id user_id : ℕ) (employer : User) (w : World)
    → env.locks_nullable ≡ false
    → employer.role ≡ UserRole.employer
    → let (r, w') = complete_job env job_id user_id employer w in
      (r ≡ err Error.not_supported) × (w' ≡ w)
unfolding complete_job atomic
complete_job_unsupported env job_id user_id employer w cannot role = (ground arith, ground arith)

complete_job_goes :
    (env : Env) (job_id user_id : ℕ) (employer : User) (job : Job) (worker : ℕ) (er wr : Wallet)
    (w : World)
    → env.locks_nullable ≡ true
    → IsEscrowed w.db
    → employer.role ≡ UserRole.employer
    → lookup job_id w.jobs ≡ some job
    → job.employer ≡ user_id
    → job.status ≡ JobStatus.in_progress
    → job.worker ≡ some worker
    → worker ≢ user_id
    → lookup user_id w.wallets ≡ some er
    → lookup worker w.wallets ≡ some wr
    → rate env ≤ 100
    → job.price * rate env < 2 ^ 53
    → fits (released er job.price er) ≡ true
    → fits (paid wr (job.price - share job.price (rate env)) wr) ≡ true
    → let (r, w') = complete_job env job_id user_id employer w in
      (r ≡ ok (completed w.now job))
      × (lookup job_id w'.jobs ≡ some (completed w.now job))
      × (lookup user_id w'.wallets ≡ some (released er job.price er))
      × (lookup worker w'.wallets ≡ some (paid wr (job.price - share job.price (rate env)) wr))
unfolding complete_job atomic
complete_job_goes env job_id user_id employer job worker er wr w locks s role found own status
      assigned other fe fw le small room room' =
    let done = completed w.now job in
    let amount : ℕ = job.price - share job.price (rate env) in
    let between = (save_job env job_id (completed w.now) job w).1 in
    let saved = save_job-Saved env job_id (completed w.now) job w in
    let ok_saved = save_job-ok env job_id (completed w.now) job w in
    let fe' : lookup job.employer between.wallets ≡ some er = ground (arith, saved.wallets) in
    let fw' : lookup worker between.wallets ≡ some wr = ground (arith, saved.wallets) in
    let other' : worker ≢ job.employer = ground arith in
    let covered : job.price ≤ er.held_balance =
      price-le-held job_id job er w s found (ground arith) (ground arith) in
    let pay = payout_exact env job.price le small in
    elim (outcome (release_job_payment env job_id done worker between)) [
      | inr (e, w'', raised) ↦ absurd (
          release_goes_through env job_id done worker er wr amount between fe' fw' other' covered
            pay room room' e w'' raised)
      | inl (txs, w'', went) ↦
          let p =
            release_frame env job_id done worker er wr amount between fe' fw' other' covered pay
              room room' txs w'' went in
          let self = lookup-modify_self job_id (completed w.now) w.jobs found in
          (
            ground arith,
            ground (arith, p.jobs),
            ground (arith, p.employer_left),
            ground (arith, p.worker_paid),
          )
    ]

-- The employer's completion of a job in progress, in a database where wallets hold what open jobs
-- cost. Where the database cannot lock the nullable side of a join, as PostgreSQL, the call raises
-- the error of that and changes nothing. Where it can, the call goes through: the job is completed,
-- its price leaves the employer's held balance, and the other party's available balance and earnings
-- grow by the price less the rounded-down commission. This is for a rate of at most 100 percent, two
-- different parties with a wallet each, and columns that the new amounts fit.
pub complete_job_pays :
    (env : Env) (job_id user_id : ℕ) (employer : User) (job : Job) (worker : ℕ) (er wr : Wallet)
    (w : World)
    → IsEscrowed w.db
    → employer.role ≡ UserRole.employer
    → lookup job_id w.jobs ≡ some job
    → job.employer ≡ user_id
    → job.status ≡ JobStatus.in_progress
    → job.worker ≡ some worker
    → worker ≢ user_id
    → lookup user_id w.wallets ≡ some er
    → lookup worker w.wallets ≡ some wr
    → rate env ≤ 100
    → job.price * rate env < 2 ^ 53
    → fits (released er job.price er) ≡ true
    → fits (paid wr (job.price - share job.price (rate env)) wr) ≡ true
    → let (r, w') = complete_job env job_id user_id employer w in
      ((env.locks_nullable ≡ false) × (r ≡ err Error.not_supported) × (w' ≡ w))
      ⊎ ((env.locks_nullable ≡ true)
          × (r ≡ ok (completed w.now job))
          × (lookup job_id w'.jobs ≡ some (completed w.now job))
          × (lookup user_id w'.wallets ≡ some (released er job.price er))
          × (lookup worker w'.wallets ≡ some (paid wr (job.price - share job.price (rate env)) wr)))
complete_job_pays env job_id user_id employer job worker er wr w s role found own status assigned
      other fe fw le small room room' =
    elim (Bool-cases env.locks_nullable) [
      | inl locks ↦
          let (a, b, c, d) =
            complete_job_goes env job_id user_id employer job worker er wr w locks s role found own
              status assigned other fe fw le small room room' in
          inr (locks, a, b, c, d)
      | inr cannot ↦
          let (raised, same) = complete_job_unsupported env job_id user_id employer w cannot role in
          inl (cannot, raised, same)
    ]
