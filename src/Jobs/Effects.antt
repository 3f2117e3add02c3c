-- ===== src/Jobs/Effects.antt =====
-- The tasks and cache flushes that the calls of apps/jobs/services.py send out.
use ishly_back.Prelude.{ℕ, ◌+◌, ◌≡◌, inl, inr, true, String, List, ◌∷◌, arith, Option-cases}
use ishly_back.Prelude.Table.{lookup, insert}
use ishly_back.Data.Accounts.{User}
use ishly_back.Data.Payments.{Wallet}
use ishly_back.Data.Jobs.{Job, JobFields}
use ishly_back.World.{World, Env, Effect, Result, ok, err, atomic}
use ishly_back.Payments.Wallets.{
  deduct_for_job, release_job_payment, refund_job, save_wallet, create_transaction,
}
use ishly_back.Chat.Signals.{create_chat_room_on_accept}
use ishly_back.Chat.Frame.{create_chat_room_on_accept-ok, create_chat_room_on_accept-SameBooks}
use ishly_back.Jobs.Service.{
  create_job, create_row, accept_job, complete_job, cancel_job, accepted_by, completed, cancelled,
  new_job, save_job,
}
use ishly_back.Jobs.Outcome.{save_job-ok, save_job-Saved}

-- No money call sends anything.
effects-deduct_for_job :
    (owner : ℕ) (wallet : Wallet) (job_id : ℕ) (job : Job) (w : World)
    → (deduct_for_job owner wallet job_id job w).1.effects ≡ w.effects
unfolding deduct_for_job save_wallet create_transaction atomic
effects-deduct_for_job owner wallet job_id job w = ground arith

effects-refund_job :
    (job_id : ℕ) (job : Job) (w : World) → (refund_job job_id job w).1.effects ≡ w.effects
unfolding refund_job save_wallet create_transaction atomic
effects-refund_job job_id job w = ground arith

effects-release_job_payment :
    (env : Env) (job_id : ℕ) (job : Job) (worker : ℕ) (w : World)
    → (release_job_payment env job_id job worker w).1.effects ≡ w.effects
unfolding release_job_payment save_wallet create_transaction atomic
effects-release_job_payment env job_id job worker w = ground arith

-- The effects of a call, newest first: those of a success, or none.
abbrev pub Sends : {A : Type 0} → Result A → List Effect → List Effect → List Effect → Type 0
Sends (ok _) before added after = after ≡ added
Sends (err _) before added after = after ≡ before

-- An acceptance queues one notice for this job and flushes the job list cache if it returns, and
-- sends nothing if it raises.
pub accept_job_effects :
    (env : Env) (job_id user_id : ℕ) (user : User) (w : World)
    → let (r, w') = accept_job env job_id user_id user w in
      Sends r w.effects
        (Effect.invalidate_job_cache ∷ Effect.notify_job_accepted job_id ∷ w.effects)
        w'.effects
unfolding accept_job atomic
accept_job_effects env job_id user_id user w = elim (Option-cases (lookup job_id w.jobs)) [
  | inl missing ↦ ground arith
  | inr (job, found) ↦ ground (
    arith,
    (save_job-Saved env job_id (accepted_by user_id w.now) job w).effects,
    save_job-ok env job_id (accepted_by user_id w.now) job w,
  )
]

-- A completion queues one notice for this job and flushes the job list cache if it returns, and
-- sends nothing if it raises, also if that happens after the job was saved.
pub complete_job_effects :
    (env : Env) (job_id user_id : ℕ) (user : User) (w : World)
    → let (r, w') = complete_job env job_id user_id user w in
      Sends r w.effects
        (Effect.invalidate_job_cache ∷ Effect.notify_job_completed job_id ∷ w.effects)
        w'.effects
unfolding complete_job atomic
complete_job_effects env job_id user_id user w = elim (Option-cases (lookup job_id w.jobs)) [
  | inl missing ↦ ground arith
  | inr (job, found) ↦ elim (Option-cases job.worker) [
    | inl unassigned ↦ ground (
      arith,
      (save_job-Saved env job_id (completed w.now) job w).effects,
      save_job-ok env job_id (completed w.now) job w,
    )
    | inr (worker, assigned) ↦ ground (
      arith,
      (save_job-Saved env job_id (completed w.now) job w).effects,
      save_job-ok env job_id (completed w.now) job w,
      effects-release_job_payment env job_id (completed w.now job) worker
          (save_job env job_id (completed w.now) job w).1,
    )
  ]
]

-- A cancellation flushes the job list cache if it returns, and sends nothing if it raises.
pub cancel_job_effects :
    (env : Env) (job_id user_id : ℕ) (reason : String) (w : World)
    → let (r, w') = cancel_job env job_id user_id reason w in
      Sends r w.effects (Effect.invalidate_job_cache ∷ w.effects) w'.effects
unfolding cancel_job atomic
cancel_job_effects env job_id user_id reason w = elim (Option-cases (lookup job_id w.jobs)) [
  | inl missing ↦ ground arith
  | inr (job, found) ↦ ground (
    arith,
    (save_job-Saved env job_id (cancelled w.now reason) job w).effects,
    save_job-ok env job_id (cancelled w.now reason) job w,
    effects-refund_job job_id (cancelled w.now reason job)
        (save_job env job_id (cancelled w.now reason) job w).1,
  )
]

-- The world in which the receivers of a new job run.
abbrev with_row : Job → World → World
with_row job w = record w {
  db = record w.db { next_id = w.next_id + 1; jobs = insert w.next_id job w.jobs };
}

-- A new job queues one notice under its own key and flushes the job list cache if the call returns,
-- and sends nothing if it raises.
pub create_job_effects :
    (env : Env) (user_id : ℕ) (user : User) (data_fields : JobFields) (w : World)
    → let (r, w') = create_job env user_id user data_fields w in
      Sends r w.effects
        (Effect.invalidate_job_cache ∷ Effect.notify_new_job w.next_id ∷ w.effects)
        w'.effects
unfolding create_job create_row atomic
create_job_effects env user_id user data_fields w = elim (Option-cases (lookup user_id w.wallets)) [
  | inl missing ↦ ground arith
  | inr (wallet, found) ↦
      let job = new_job user_id data_fields w.now in
      let start = with_row job w in
      ground (
        arith,
        create_chat_room_on_accept-ok env w.next_id job true start,
        (create_chat_room_on_accept-SameBooks env w.next_id job true start).effects,
        effects-deduct_for_job user_id wallet w.next_id job
            (create_chat_room_on_accept env w.next_id job true start).1,
      )
]
