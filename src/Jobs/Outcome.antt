-- ===== src/Jobs/Outcome.antt =====
-- What a successful call of `JobService` has done to jobs and money.
use ishly_back.Prelude.{
  ℕ, ◌+◌, ◌≤◌, ◌<◌, ◌≡◌, ◌≢◌, ◌⊎◌, true, false, String, some, arith, Option-cases, inl, inr,
}
use ishly_back.Prelude.Table.{lookup, modify, insert}
use ishly_back.Data.Accounts.{User, UserRole}
use ishly_back.Data.Jobs.{Job, JobFields, JobStatus, can_be_cancelled}
use ishly_back.World.{World, Env, ok, atomic}
use ishly_back.World.Atomic.{outcome}
use ishly_back.Data.Payments.{Transaction, Wallet}
use ishly_back.Payments.Wallets.{release_job_payment, refund_job, deduct_for_job}
use ishly_back.Chat.Signals.{create_chat_room_on_accept}
use ishly_back.Chat.Frame.{create_chat_room_on_accept-ok, create_chat_room_on_accept-SameBooks}
use ishly_back.Jobs.Service.{
  save_job, accept_job, start_job, complete_job, cancel_job, accepted_by, started, completed,
  cancelled, create_job, create_row, new_job,
}

-- A save writes one job and nothing of money; the chat may have grown.
pub record Saved (job_id : ℕ) (change : Job → Job) (w w' : World) : Type 0 where
  pub jobs : w'.jobs ≡ modify job_id change w.jobs
  pub wallets : w'.wallets ≡ w.wallets
  pub transactions : w'.transactions ≡ w.transactions
  pub effects : w'.effects ≡ w.effects
  pub more : w.next_id ≤ w'.next_id

-- One job changed, and no money moved.
pub record Changed (job_id : ℕ) (job : Job) (change : Job → Job) (w w' : World) : Type 0 where
  pub found : lookup job_id w.jobs ≡ some job
  pub jobs : w'.jobs ≡ modify job_id change w.jobs
  pub wallets : w'.wallets ≡ w.wallets
  pub transactions : w'.transactions ≡ w.transactions
  pub more : w.next_id ≤ w'.next_id

module _ (env : Env) (job_id : ℕ) (change : Job → Job) (job : Job) (w : World) where
  pub save_job-ok : (save_job env job_id change job w).0 ≡ ok tt
  unfolding save_job
  save_job-ok = create_chat_room_on_accept-ok env job_id (change job) false _

  pub save_job-Saved : Saved job_id change w (save_job env job_id change job w).1
  unfolding save_job
  save_job-Saved =
      let s =
        create_chat_room_on_accept-SameBooks env job_id (change job) false
          (record w { db = record w.db { jobs = modify job_id change w.jobs } }) in
      record {
        jobs = s.jobs;
        wallets = s.wallets;
        transactions = s.transactions;
        effects = s.effects;
        more = s.more;
      }

pub accept_job-Changed :
    (env : Env) (job_id user_id : ℕ) (worker : User) (job' : Job) (w w' : World)
    → accept_job env job_id user_id worker w ≡ (ok job', w')
    → (job : Job) × Changed job_id job (accepted_by user_id w.now) w w'
      × (job.status ≡ JobStatus.created)
      × (job.employer ≢ user_id)
      × (worker.role ≡ UserRole.worker)
      × (env.locked job_id ≡ false)
unfolding accept_job atomic
accept_job-Changed env job_id user_id worker job' w w' h =
    elim (Option-cases (lookup job_id w.jobs)) [
      | inl missing ↦ absurd (ground arith)
      | inr (job, found) ↦
          let saved = save_job-Saved env job_id (accepted_by user_id w.now) job w in
          let done = save_job-ok env job_id (accepted_by user_id w.now) job w in
          (job, ground arith, ground arith, ground arith, ground arith, ground arith)
    ]

pub start_job-Changed :
    (env : Env) (job_id user_id : ℕ) (job' : Job) (w w' : World)
    → start_job env job_id user_id w ≡ (ok job', w')
    → (job : Job) × Changed job_id job (started w.now) w w'
      × (job.status ≡ JobStatus.accepted)
      × (job.worker ≡ some user_id)
unfolding start_job atomic
start_job-Changed env job_id user_id job' w w' h = elim (Option-cases (lookup job_id w.jobs)) [
  | inl missing ↦ absurd (ground arith)
  | inr (job, found) ↦
      let saved = save_job-Saved env job_id (started w.now) job w in
      let done = save_job-ok env job_id (started w.now) job w in
      (job, ground arith, ground arith, ground arith)
]

-- What a completed job has been through: the change of the job, then the release of its price.
pub record IsCompletion (env : Env) (job_id user_id : ℕ) (w w' : World) : Type 0 where
  pub job : Job
  pub worker : ℕ
  pub between : World
  pub after : World
  pub txs : Transaction × Transaction
  pub found : lookup job_id w.jobs ≡ some job
  pub saved : Saved job_id (completed w.now) w between
  pub status : job.status ≡ JobStatus.in_progress
  pub employer : job.employer ≡ user_id
  pub assigned : job.worker ≡ some worker
  pub released :
      release_job_payment env job_id (completed w.now job) worker between ≡ (ok txs, after)
  pub same : w'.db ≡ after.db

pub complete_job-IsCompletion :
    (env : Env) (job_id user_id : ℕ) (employer : User) (job' : Job) (w w' : World)
    → complete_job env job_id user_id employer w ≡ (ok job', w')
    → IsCompletion env job_id user_id w w'
unfolding complete_job atomic
complete_job-IsCompletion env job_id user_id employer job' w w' h =
    elim (Option-cases (lookup job_id w.jobs)) [
      | inl missing ↦ absurd (ground arith)
      | inr (job, found) ↦
          let saved = save_job-Saved env job_id (completed w.now) job w in
          let done = save_job-ok env job_id (completed w.now) job w in
          let between = (save_job env job_id (completed w.now) job w).1 in
          elim (Option-cases job.worker) [
            | inl unassigned ↦ absurd (ground arith)
            | inr (worker, assigned) ↦
                elim (outcome
                  (release_job_payment env job_id (completed w.now job) worker between)) [
                    | inr (e, after, raised) ↦ absurd (ground arith)
                    | inl (txs, after, released) ↦ record {
                      job = job;
                      worker = worker;
                      between = between;
                      after = after;
                      txs = txs;
                      found = found;
                      saved = saved;
                      status = ground arith;
                      employer = ground arith;
                      assigned = assigned;
                      released = released;
                      same = ground arith;
                    }
                  ]
          ]
    ]

pub record IsCancellation (job_id user_id : ℕ) (reason : String) (w w' : World) : Type 0 where
  pub job : Job
  pub between : World
  pub after : World
  pub tx : Transaction
  pub found : lookup job_id w.jobs ≡ some job
  pub saved : Saved job_id (cancelled w.now reason) w between
  pub open_status : can_be_cancelled job.status ≡ true
  pub party : (user_id ≡ job.employer) ⊎ (job.worker ≡ some user_id)
  pub refunded : refund_job job_id (cancelled w.now reason job) between ≡ (ok tx, after)
  pub same : w'.db ≡ after.db

pub cancel_job-IsCancellation :
    (env : Env) (job_id user_id : ℕ) (reason : String) (job' : Job) (w w' : World)
    → cancel_job env job_id user_id reason w ≡ (ok job', w')
    → IsCancellation job_id user_id reason w w'
unfolding cancel_job atomic
cancel_job-IsCancellation env job_id user_id reason job' w w' h =
    elim (Option-cases (lookup job_id w.jobs)) [
      | inl missing ↦ absurd (ground arith)
      | inr (job, found) ↦
          let saved = save_job-Saved env job_id (cancelled w.now reason) job w in
          let done = save_job-ok env job_id (cancelled w.now reason) job w in
          let between = (save_job env job_id (cancelled w.now reason) job w).1 in
          elim (outcome (refund_job job_id (cancelled w.now reason job) between)) [
            | inr (e, after, raised) ↦ absurd (ground arith)
            | inl (tx, after, refunded) ↦ record {
              job = job;
              between = between;
              after = after;
              tx = tx;
              found = found;
              saved = saved;
              open_status = ground arith;
              party = ground arith;
              refunded = refunded;
              same = ground arith;
            }
          ]
    ]

-- A new job stands under the next key, and its price has been taken from the employer's wallet.
pub record IsCreation (user_id : ℕ) (data_fields : JobFields) (w w' : World) (job_id : ℕ)
    : Type 0 where
  pub wallet : Wallet
  pub between : World
  pub after : World
  pub tx : Transaction
  pub key : job_id ≡ w.next_id
  pub found : lookup user_id w.wallets ≡ some wallet
  pub jobs : between.jobs ≡ insert job_id (new_job user_id data_fields w.now) w.jobs
  pub wallets : between.wallets ≡ w.wallets
  pub transactions : between.transactions ≡ w.transactions
  pub deducted :
      deduct_for_job user_id wallet job_id (new_job user_id data_fields w.now) between
      ≡ (ok tx, after)
  pub same : w'.db ≡ after.db
  pub more : w.next_id < between.next_id

pub create_job-IsCreation :
    (env : Env) (user_id : ℕ) (employer : User) (data_fields : JobFields) (job_id : ℕ)
    (w w' : World)
    → create_job env user_id employer data_fields w ≡ (ok job_id, w')
    → IsCreation user_id data_fields w w' job_id × (employer.role ≡ UserRole.employer)
unfolding create_job create_row atomic
create_job-IsCreation env user_id employer data_fields job_id w w' h =
    elim (Option-cases (lookup user_id w.wallets)) [
      | inl missing ↦ absurd (ground arith)
      | inr (wallet, found) ↦
          let job = new_job user_id data_fields w.now in
          let start = record w {
            db = record w.db { next_id = w.next_id + 1; jobs = insert w.next_id job w.jobs };
          } in
          let done = create_chat_room_on_accept-ok env w.next_id job true start in
          let s = create_chat_room_on_accept-SameBooks env w.next_id job true start in
          let between = (create_chat_room_on_accept env w.next_id job true start).1 in
          elim (outcome (deduct_for_job user_id wallet w.next_id job between)) [
            | inr (e, after, raised) ↦ absurd (ground arith)
            | inl (tx, after, deducted) ↦ (
              record {
                wallet = wallet;
                between = between;
                after = after;
                tx = tx;
                key = ground arith;
                found = found;
                jobs = ground arith;
                wallets = s.wallets;
                transactions = s.transactions;
                deducted = ground arith;
                same = ground arith;
                more = ground arith;
              },
              ground arith,
            )
          ]
    ]
