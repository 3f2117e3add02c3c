-- ===== src/Jobs/Rollback.antt =====
-- The calls of `JobService` of apps/jobs/services.py that raise.
use ishly_back.Prelude.{ℕ, String, ◌≡◌}
use ishly_back.Core.Errors.{Error}
use ishly_back.Data.Accounts.{User}
use ishly_back.Data.Jobs.{JobFields}
use ishly_back.World.{World, Env, err}
use ishly_back.World.Atomic.{atomic_rollback}
use ishly_back.Jobs.Service.{create_job, accept_job, start_job, complete_job, cancel_job}

module _ (env : Env) (w : World) {e : Error} where
  pub create_job_rollback :
      (user_id : ℕ) (employer : User) (data_fields : JobFields)
      → (create_job env user_id employer data_fields w).0 ≡ err e
      → (create_job env user_id employer data_fields w).1.db ≡ w.db
  unfolding create_job
  create_job_rollback user_id employer data_fields h = atomic_rollback _ w h

  pub accept_job_rollback :
      (job_id user_id : ℕ) (worker : User)
      → (accept_job env job_id user_id worker w).0 ≡ err e
      → (accept_job env job_id user_id worker w).1.db ≡ w.db
  unfolding accept_job
  accept_job_rollback job_id user_id worker h = atomic_rollback _ w h

  pub start_job_rollback :
      (job_id user_id : ℕ)
      → (start_job env job_id user_id w).0 ≡ err e
      → (start_job env job_id user_id w).1.db ≡ w.db
  unfolding start_job
  start_job_rollback job_id user_id h = atomic_rollback _ w h

  pub complete_job_rollback :
      (job_id user_id : ℕ) (employer : User)
      → (complete_job env job_id user_id employer w).0 ≡ err e
      → (complete_job env job_id user_id employer w).1.db ≡ w.db
  unfolding complete_job
  complete_job_rollback job_id user_id employer h = atomic_rollback _ w h

  pub cancel_job_rollback :
      (job_id user_id : ℕ) (reason : String)
      → (cancel_job env job_id user_id reason w).0 ≡ err e
      → (cancel_job env job_id user_id reason w).1.db ≡ w.db
  unfolding cancel_job
  cancel_job_rollback job_id user_id reason h = atomic_rollback _ w h
