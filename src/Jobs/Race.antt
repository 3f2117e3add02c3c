-- ===== src/Jobs/Race.antt =====
-- Two workers ask for one job.
use ishly_back.Prelude.{ℕ, ◌≡◌, refl, some, arith, if◌then◌else◌}
use ishly_back.Prelude.Table.{lookup, lookup-modify_self}
use ishly_back.Core.Errors.{Error}
use ishly_back.Data.Accounts.{User, UserRole}
use ishly_back.Data.Jobs.{Job, JobStatus}
use ishly_back.World.{World, Env, ok, err, atomic}
use ishly_back.Jobs.Service.{accept_job, accepted_by}
use ishly_back.Jobs.Outcome.{accept_job-Changed}

-- A job that is accepted is refused to every worker.
after_accept :
    (env : Env) (job_id user_id : ℕ) (user : User) (job : Job) (w : World)
    → lookup job_id w.jobs ≡ some job
    → job.status ≡ JobStatus.accepted
    → user.role ≡ UserRole.worker
    → accept_job env job_id user_id user w
      ≡ (if env.locked job_id then err Error.conflict else err Error.job_state, w)
unfolding accept_job atomic
after_accept env job_id user_id user job w there status role = ground arith

-- Once one worker's call has returned, the call of any worker for the same job raises the state
-- error and changes nothing; while the row is still locked it raises a conflict instead.
pub accept_job_once :
    (env env' : Env) (job_id user_id other_id : ℕ) (user other : User) (job' : Job) (w w' : World)
    → accept_job env job_id user_id user w ≡ (ok job', w')
    → other.role ≡ UserRole.worker
    → accept_job env' job_id other_id other w'
      ≡ (if env'.locked job_id then err Error.conflict else err Error.job_state, w')
accept_job_once env env' job_id user_id other_id user other job' w w' h role =
    let (job, c, _, _, _, _) = accept_job-Changed env job_id user_id user job' w w' h in
    let self = lookup-modify_self job_id (accepted_by user_id w.now) w.jobs c.found in
    let there : lookup job_id w'.jobs ≡ some (accepted_by user_id w.now job) =
      ground (arith, c.jobs, self) in
    after_accept env' job_id other_id other (accepted_by user_id w.now job) w' there refl role
