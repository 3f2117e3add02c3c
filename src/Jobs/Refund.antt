-- ===== src/Jobs/Refund.antt =====
-- `JobService.cancel_job` of apps/jobs/services.py, from the guards to the wallets.
use ishly_back.Prelude.{
  ℕ, ◌≤◌, ◌≡◌, ◌⊎◌, inl, inr, true, false, String, some, arith, min, Bool-cases,
}
use ishly_back.Prelude.Table.{lookup, lookup-modify_self}
use ishly_back.Core.Errors.{Error}
use ishly_back.Data.Payments.{Wallet, Transaction, fits}
use ishly_back.Data.Jobs.{Job, can_be_cancelled}
use ishly_back.World.{World, Env, ok, err, atomic}
use ishly_back.World.Atomic.{outcome}
use ishly_back.Payments.Wallets.{refund_job, save_wallet, create_transaction}
use ishly_back.Payments.Posting.{refunded}
use ishly_back.Jobs.Service.{cancel_job, cancelled, save_job}
use ishly_back.Jobs.Outcome.{save_job-ok, save_job-Saved}
use ishly_back.Jobs.Escrow.{IsEscrowed}
use ishly_back.Jobs.Payout.{price-le-held}

module _ (job_id : ℕ) (job : Job) (er : Wallet) (w : World)
    (fe : lookup job.employer w.wallets ≡ some er) (covered : job.price ≤ er.held_balance)
    (room : fits (refunded er job.price er) ≡ true) where
  least : min job.price er.held_balance ≡ job.price
  least = omega arith

  refund_goes_through : (e : Error) (w' : World) → refund_job job_id job w ≡ (err e, w') → ⊥
  unfolding refund_job save_wallet create_transaction atomic
  refund_goes_through e w' h = ground (arith, least)

  refund_pays :
      (tx : Transaction) (w' : World)
      → refund_job job_id job w ≡ (ok tx, w')
      → (lookup job.employer w'.wallets ≡ some (refunded er job.price er)) × (w'.jobs ≡ w.jobs)
  unfolding refund_job save_wallet create_transaction atomic
  refund_pays tx w' h = (
    ground (
      arith,
      least,
      lookup-modify_self job.employer (refunded er (min job.price er.held_balance)) w.wallets fe,
    ),
    ground (arith, least),
  )

cancel_job_unsupported :
    (env : Env) (job_id user_id : ℕ) (reason : String) (w : World)
    → env.locks_nullable ≡ false
    → let (r, w') = cancel_job env job_id user_id reason w in
      (r ≡ err Error.not_supported) × (w' ≡ w)
unfolding cancel_job atomic
cancel_job_unsupported env job_id user_id reason w cannot = (ground arith, ground arith)

cancel_job_goes :
    (env : Env) (job_id user_id : ℕ) (reason : String) (job : Job) (er : Wallet) (w : World)
    → env.locks_nullable ≡ true
    → IsEscrowed w.db
    → lookup job_id w.jobs ≡ some job
    → can_be_cancelled job.status ≡ true
    → (user_id ≡ job.employer) ⊎ (job.worker ≡ some user_id)
    → lookup job.employer w.wallets ≡ some er
    → fits (refunded er job.price er) ≡ true
    → let (r, w') = cancel_job env job_id user_id reason w in
      (r ≡ ok (cancelled w.now reason job))
      × (lookup job_id w'.jobs ≡ some (cancelled w.now reason job))
      × (lookup job.employer w'.wallets ≡ some (refunded er job.price er))
unfolding cancel_job atomic
cancel_job_goes env job_id user_id reason job er w locks s found opened party fe room =
    let done = cancelled w.now reason job in
    let between = (save_job env job_id (cancelled w.now reason) job w).1 in
    let saved = save_job-Saved env job_id (cancelled w.now reason) job w in
    let ok_saved = save_job-ok env job_id (cancelled w.now reason) job w in
    let fe' : lookup job.employer between.wallets ≡ some er = ground (arith, saved.wallets) in
    let covered : job.price ≤ er.held_balance = price-le-held job_id job er w s found opened fe in
    elim (outcome (refund_job job_id done between)) [
      | inr (e, w'', raised) ↦
          absurd (refund_goes_through job_id done er between fe' covered room e w'' raised)
      | inl (tx, w'', went) ↦
          let (money, same) = refund_pays job_id done er between fe' covered room tx w'' went in
          let self = lookup-modify_self job_id (cancelled w.now reason) w.jobs found in
          (ground arith, ground arith, ground arith)
    ]

-- A cancellation by the employer or by the assigned worker of a job that is neither completed nor
-- cancelled, in a database where wallets hold what open jobs cost. Where the database cannot lock the
-- nullable side of a join, as PostgreSQL, the call raises the error of that and changes nothing. Where
-- it can, the call goes through: the job is cancelled with the reason given, and the whole price moves
-- from the employer's held to the available balance, in whatever state the job was. The employer needs
-- a wallet whose columns fit the amounts.
pub cancel_job_refunds :
    (env : Env) (job_id user_id : ℕ) (reason : String) (job : Job) (er : Wallet) (w : World)
    → IsEscrowed w.db
    → lookup job_id w.jobs ≡ some job
    → can_be_cancelled job.status ≡ true
    → (user_id ≡ job.employer) ⊎ (job.worker ≡ some user_id)
    → lookup job.employer w.wallets ≡ some er
    → fits (refunded er job.price er) ≡ true
    → let (r, w') = cancel_job env job_id user_id reason w in
      ((env.locks_nullable ≡ false) × (r ≡ err Error.not_supported) × (w' ≡ w))
      ⊎ ((env.locks_nullable ≡ true)
          × (r ≡ ok (cancelled w.now reason job))
          × (lookup job_id w'.jobs ≡ some (cancelled w.now reason job))
          × (lookup job.employer w'.wallets ≡ some (refunded er job.price er)))
cancel_job_refunds env job_id user_id reason job er w s found opened party fe room =
    elim (Bool-cases env.locks_nullable) [
      | inl locks ↦
          let (a, b, c) =
            cancel_job_goes env job_id user_id reason job er w locks s found opened party fe room in
          inr (locks, a, b, c)
      | inr cannot ↦
          let (raised, same) = cancel_job_unsupported env job_id user_id reason w cannot in
          inl (cannot, raised, same)
    ]
