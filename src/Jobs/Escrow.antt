-- ===== src/Jobs/Escrow.antt =====
-- Escrow: what a wallet holds is the sum of the prices of its owner's open jobs.
use ishly_back.Prelude.{
  ℕ, ◌+◌, ◌≡◌, ◌&&◌, String, some, ◌==◌, ==_refl, arith, ap, ◌∙◌, if◌then◌else◌, min,
}
use ishly_back.Prelude.Table.{Table, lookup, modify, total, total-modify, total-lookup-le}
use ishly_back.Data.Accounts.{User}
use ishly_back.Data.Payments.{Wallet, Transaction}
use ishly_back.Data.Jobs.{Job, JobFields, can_be_cancelled}
use ishly_back.World.{World, Db, Env, ok}
use ishly_back.Payments.Ledger.{held_in, held-post_self, held-post_ne}
use ishly_back.Payments.Posting.{
  deduct_for_job-Posted, refund_job-Posted, escrowed_from, refunded, released, paid,
  release_job_payment-Released,
}
use ishly_back.Jobs.Service.{
  accept_job, start_job, create_job, accepted_by, started, completed, cancelled, new_job,
}
use ishly_back.Jobs.Outcome.{
  IsCompletion, IsCancellation, accept_job-Changed, start_job-Changed, create_job-IsCreation,
}

-- What a job makes its employer `u` hold.
abbrev pub price_held : ℕ → Job → ℕ
price_held u job = if job.employer == u && can_be_cancelled job.status then job.price else 0

abbrev pub escrow : ℕ → Table Job → ℕ
escrow u jobs = total (price_held u) jobs

abbrev pub IsEscrowed : Db → Type 0
IsEscrowed db = (u : ℕ) → held_in (lookup u db.wallets) ≡ escrow u db.jobs

-- What one posting does to the held balance of `u`.
pub held-Posted :
    (u owner : ℕ) (row : Wallet) (change : Wallet → Wallet) (tx : Transaction) (db : Db)
    → lookup owner db.wallets ≡ some row
    → held_in (lookup u (modify owner change db.wallets))
      ≡ (if owner == u then (change row).held_balance else held_in (lookup u db.wallets))
held-Posted u owner row change tx db found = ground (
  arith,
  held-post_self owner row change tx db found,
  held-post_ne owner row change tx db found u,
)

-- A change of one job moves the escrow of `u` by what it changes in that job.
escrow-change :
    (u job_id : ℕ) (change : Job → Job) (jobs : Table Job) (job : Job)
    → lookup job_id jobs ≡ some job
    → escrow u (modify job_id change jobs) + price_held u job
      ≡ escrow u jobs + price_held u (change job)
escrow-change u job_id change jobs job found = total-modify (price_held u) job_id change jobs found

module _ (env : Env) where
  pub accept_job-IsEscrowed :
      (job_id user_id : ℕ) (worker : User) (job' : Job) (w w' : World)
      → accept_job env job_id user_id worker w ≡ (ok job', w')
      → IsEscrowed w.db
      → IsEscrowed w'.db
  accept_job-IsEscrowed job_id user_id worker job' w w' h inv u =
      let (job, c, status, _, _, _) = accept_job-Changed env job_id user_id worker job' w w' h in
      ground (
        arith,
        inv u,
        c.wallets,
        c.jobs,
        status,
        escrow-change u job_id (accepted_by user_id w.now) w.jobs job c.found,
      )

  pub start_job-IsEscrowed :
      (job_id user_id : ℕ) (job' : Job) (w w' : World)
      → start_job env job_id user_id w ≡ (ok job', w')
      → IsEscrowed w.db
      → IsEscrowed w'.db
  start_job-IsEscrowed job_id user_id job' w w' h inv u =
      let (job, c, status, _) = start_job-Changed env job_id user_id job' w w' h in
      ground (
        arith,
        inv u,
        c.wallets,
        c.jobs,
        status,
        escrow-change u job_id (started w.now) w.jobs job c.found,
      )

  pub create_job-IsEscrowed :
      (user_id : ℕ) (employer : User) (data_fields : JobFields) (job_id : ℕ) (w w' : World)
      → create_job env user_id employer data_fields w ≡ (ok job_id, w')
      → IsEscrowed w.db
      → IsEscrowed w'.db
  create_job-IsEscrowed user_id employer data_fields job_id w w' h inv u =
      let (c, _) = create_job-IsCreation env user_id employer data_fields job_id w w' h in
      let job = new_job user_id data_fields w.now in
      let found : lookup user_id c.between.wallets ≡ some c.wallet =
        ap (lookup user_id) c.wallets ∙ c.found in
      let (_, p) =
        deduct_for_job-Posted user_id c.wallet job_id job c.between c.after c.tx found c.deducted in
      ground (
        arith,
        inv u,
        inv user_id,
        c.wallets,
        c.jobs,
        c.same,
        p.world,
        c.found,
        held-Posted u user_id c.wallet (escrowed_from c.wallet job.price) c.tx c.between.db found,
      )

  -- Completion: the job leaves escrow, and its price leaves the held balance.
  pub completion_escrow :
      (job_id user_id : ℕ) (w w' : World)
      → IsCompletion env job_id user_id w w'
      → IsEscrowed w.db
      → IsEscrowed w'.db
  completion_escrow job_id user_id w w' c inv u =
      let job = completed w.now c.job in
      let r =
        release_job_payment-Released env job_id job c.worker c.between c.after c.txs.0 c.txs.1
          c.released in
      ground (
        arith,
        inv u,
        inv user_id,
        c.status,
        c.employer,
        c.saved.wallets,
        c.saved.jobs,
        c.same,
        r.covered,
        r.first.world,
        r.second.world,
        r.first.found,
        r.second.found,
        escrow-change u job_id (completed w.now) w.jobs c.job c.found,
        held-Posted u c.job.employer r.employer_row (released r.employer_row job.price) c.txs.0
            c.between.db r.first.found,
        held-Posted u c.worker r.later_row (paid r.worker_row r.amount) c.txs.1 r.between.db
            r.second.found,
      )

  pub cancellation_escrow :
      (job_id user_id : ℕ) (reason : String) (w w' : World)
      → IsCancellation job_id user_id reason w w'
      → IsEscrowed w.db
      → IsEscrowed w'.db
  cancellation_escrow job_id user_id reason w w' c inv u =
      let job = cancelled w.now reason c.job in
      let (wallet, p) = refund_job-Posted job_id job c.between c.after c.tx c.refunded in
      ground (
        arith,
        inv u,
        inv c.job.employer,
        c.open_status,
        c.saved.wallets,
        c.saved.jobs,
        c.same,
        p.world,
        p.found,
        escrow-change u job_id (cancelled w.now reason) w.jobs c.job c.found,
        total-lookup-le (price_held c.job.employer) job_id w.jobs c.found,
        ==_refl c.job.employer,
        held-Posted u c.job.employer wallet (refunded wallet (min job.price wallet.held_balance))
            c.tx c.between.db p.found,
      )
