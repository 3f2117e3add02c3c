-- ===== src/Jobs/Service.antt =====
-- `JobService` of apps/jobs/services.py. A user is given by its key and its row.
use ishly_back.Prelude.{
  ℕ, ◌+◌, Bool, true, false, not, ◌||◌, String, Option, none, some, ltb, ◌==◌, is_key,
  if◌then◌else◌,
}
use ishly_back.Prelude.Table.{lookup, insert, modify}
use ishly_back.Core.Errors.{Error}
use ishly_back.Data.Accounts.{User, is_employer, is_worker}
use ishly_back.Data.Jobs.{
  Job, JobFields, JobStatus, is_created, is_accepted, is_in_progress, can_be_cancelled,
}
use ishly_back.World.{
  World, Env, Action, Effect, pure, raise, raise_if, get_or_raise, gets, modify_db, emit, atomic,
  ◌>>=◌, ◌>>◌,
}
use ishly_back.Payments.Wallets.{get_wallet, deduct_for_job, release_job_payment, refund_job}
use ishly_back.Chat.Signals.{create_chat_room_on_accept}

-- `Job.objects...get(id=..., ...)`: the row, if it passes the other conditions
abbrev pub find_job : ℕ → (Job → Bool) → World → Option Job
find_job job_id test w = elim (lookup job_id w.jobs) [
  | none ↦ none
  | some job ↦ if test job then some job else none
]

-- `job.save(update_fields=...)` of an instance, and then the receivers of `post_save`
unfoldable pub save_job : Env → ℕ → (Job → Job) → Job → Action (Unit {0})
save_job env job_id columns job = do
  modify_db (λ db. record db { jobs = modify job_id columns db.jobs })
  create_chat_room_on_accept env job_id (columns job) false

-- The row of a job that was just posted.
abbrev pub new_job : ℕ → JobFields → ℕ → Job
new_job employer data_fields now = record {
  fields = data_fields;
  employer = employer;
  worker = none;
  status = JobStatus.created;
  created_at = now;
  accepted_at = none;
  started_at = none;
  completed_at = none;
  cancelled_at = none;
  cancel_reason = "";
}

-- `Job.objects.create`, with the `post_save` of a new row
unfoldable pub create_row : Env → Job → Action ℕ
create_row env job = do
  job_id ← gets (λ w. w.next_id)
  modify_db (λ db. record db { next_id = db.next_id + 1; jobs = insert job_id job db.jobs })
  create_chat_room_on_accept env job_id job true
  pure job_id

-- `JobService.create_job`
unfoldable pub create_job : Env → ℕ → User → JobFields → Action ℕ
create_job env user_id employer data_fields = atomic (do
  raise_if (not (is_employer employer)) Error.forbidden
  wallet ← get_wallet user_id
  raise_if (ltb wallet.balance data_fields.price) Error.insufficient_balance
  now ← gets (λ w. w.now)
  job_id ← create_row env (new_job user_id data_fields now)
  deduct_for_job user_id wallet job_id (new_job user_id data_fields now)
  emit (Effect.notify_new_job job_id)
  emit Effect.invalidate_job_cache
  pure job_id)

abbrev pub accepted_by : ℕ → ℕ → Job → Job
accepted_by worker now job = record job {
  worker = some worker;
  status = JobStatus.accepted;
  accepted_at = some now;
}

-- `JobService.accept_job` from the locked row on
abbrev pub accept_row : Env → ℕ → ℕ → Job → Action Job
accept_row env job_id user_id job = do
  raise_if (not (is_created job.status)) Error.job_state
  raise_if (job.employer == user_id) Error.forbidden
  now ← gets (λ w. w.now)
  save_job env job_id (accepted_by user_id now) job
  emit (Effect.notify_job_accepted job_id)
  emit Effect.invalidate_job_cache
  pure (accepted_by user_id now job)

-- `JobService.accept_job`. The lock is asked for with `nowait`, so a locked row is a conflict.
unfoldable pub accept_job : Env → ℕ → ℕ → User → Action Job
accept_job env job_id user_id worker = atomic (do
  raise_if (not (is_worker worker)) Error.forbidden
  job ← get_or_raise (find_job job_id (λ _. true)) Error.not_found
  raise_if (env.locked job_id) Error.conflict
  accept_row env job_id user_id job)

abbrev pub started : ℕ → Job → Job
started now job = record job { status = JobStatus.in_progress; started_at = some now }

-- `JobService._get_job_for_worker`
abbrev pub get_job_for_worker : ℕ → ℕ → Action Job
get_job_for_worker job_id user_id =
    get_or_raise (find_job job_id (λ job. is_key job.worker user_id)) Error.not_found

-- `JobService.start_job` from the locked row on
abbrev pub start_row : Env → ℕ → Job → Action Job
start_row env job_id job = do
  raise_if (not (is_accepted job.status)) Error.job_state
  now ← gets (λ w. w.now)
  save_job env job_id (started now) job
  pure (started now job)

-- `JobService.start_job`
unfoldable pub start_job : Env → ℕ → ℕ → Action Job
start_job env job_id user_id =
    atomic (do job ← get_job_for_worker job_id user_id; start_row env job_id job)

abbrev pub completed : ℕ → Job → Job
completed now job = record job { status = JobStatus.completed; completed_at = some now }

-- `if not job.worker: raise JobStateException`
abbrev pub require_worker : Option ℕ → Action ℕ
require_worker none = raise Error.job_state
require_worker (some worker) = pure worker

-- `JobService.complete_job` from the locked row on
abbrev pub complete_row : Env → ℕ → Job → Action Job
complete_row env job_id job = do
  raise_if (not (is_in_progress job.status)) Error.job_state
  worker ← require_worker job.worker
  now ← gets (λ w. w.now)
  save_job env job_id (completed now) job
  release_job_payment env job_id (completed now job) worker
  emit (Effect.notify_job_completed job_id)
  emit Effect.invalidate_job_cache
  pure (completed now job)

-- `select_for_update().select_related("employer", "worker")`, which raises where the database cannot
-- lock the nullable side of the join to the worker
abbrev pub lock_joined : Env → Action (Unit {0})
lock_joined env = raise_if (not env.locks_nullable) Error.not_supported

-- `JobService.complete_job`
unfoldable pub complete_job : Env → ℕ → ℕ → User → Action Job
complete_job env job_id user_id employer = atomic (do
  raise_if (not (is_employer employer)) Error.forbidden
  lock_joined env
  job ← get_or_raise (find_job job_id (λ job. job.employer == user_id)) Error.not_found
  complete_row env job_id job)

abbrev pub cancelled : ℕ → String → Job → Job
cancelled now reason job = record job {
  status = JobStatus.cancelled;
  cancelled_at = some now;
  cancel_reason = reason;
}

-- `prev_status in (CREATED, ACCEPTED, IN_PROGRESS)`
abbrev pub is_refundable : JobStatus → Bool
is_refundable status = is_created status || is_accepted status || is_in_progress status

abbrev pub refund_if : Bool → ℕ → Job → Action (Unit {0})
refund_if false job_id job = pure tt
refund_if true job_id job = do refund_job job_id job; pure tt

-- `JobService.cancel_job` from the locked row on
abbrev pub cancel_row : Env → ℕ → ℕ → String → Job → Action Job
cancel_row env job_id user_id reason job = do
  raise_if (not (user_id == job.employer || is_key job.worker user_id)) Error.forbidden
  raise_if (not (can_be_cancelled job.status)) Error.job_state
  now ← gets (λ w. w.now)
  save_job env job_id (cancelled now reason) job
  refund_if (is_refundable job.status) job_id (cancelled now reason job)
  emit Effect.invalidate_job_cache
  pure (cancelled now reason job)

-- `JobService.cancel_job`
unfoldable pub cancel_job : Env → ℕ → ℕ → String → Action Job
cancel_job env job_id user_id reason = atomic (do
  lock_joined env
  job ← get_or_raise (find_job job_id (λ _. true)) Error.not_found
  cancel_row env job_id user_id reason job)
