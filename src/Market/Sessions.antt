-- ===== src/Market/Sessions.antt =====
-- Requests that run at the same time. A call on a job has two steps, as `select_for_update` makes them in
-- apps/jobs/services.py: it locks and reads the row, and later it works with what it read and commits.
-- Between these other requests take steps. A row that is locked makes an acceptance fail at once, and
-- any other call wait. What happens to wallets is part of the second step, since their rows are locked
-- before they are read; calls that lock no job are one step.
pub mod Rows
pub mod Steady
pub mod Serial
use ishly_back.Prelude.{
  ℕ, Bool, true, false, not, ◌||◌, ◌&&◌, Option, none, some, List, [], ◌∷◌, ◌++◌, ◌==◌, is_some,
  if◌then◌else◌,
}
use ishly_back.Prelude.Table.{Table, lookup}
use ishly_back.Core.Errors.{Error}
use ishly_back.Data.Accounts.{User, is_employer, is_worker}
use ishly_back.Data.Jobs.{Job}
use ishly_back.World.{
  World, Env, Action, Result, ok, err, raise_if, get_or_raise, atomic, ◌>>=◌, ◌>>◌,
}
use ishly_back.Jobs.Service.{
  find_job, get_job_for_worker, accept_row, start_row, complete_row, cancel_row,
}
use ishly_back.Jobs.Status.{Act}
use ishly_back.Market.Calls.{Call, serve}

abbrev pub job_of : Act → ℕ
job_of (Act.accept job_id _ _) = job_id
job_of (Act.start job_id _) = job_id
job_of (Act.complete job_id _ _) = job_id
job_of (Act.cancel job_id _ _) = job_id

-- The first step: what comes before the row is read, and the read.
abbrev pub lock_job : Act → Action Job
lock_job (Act.accept job_id user_id worker) = do
  raise_if (not (is_worker worker)) Error.forbidden
  get_or_raise (find_job job_id (λ _. true)) Error.not_found
lock_job (Act.start job_id user_id) = get_job_for_worker job_id user_id
lock_job (Act.complete job_id user_id employer) = do
  raise_if (not (is_employer employer)) Error.forbidden
  get_or_raise (find_job job_id (λ job. job.employer == user_id)) Error.not_found
lock_job (Act.cancel job_id user_id reason) =
    get_or_raise (find_job job_id (λ _. true)) Error.not_found

-- The second step, with the row that was read.
abbrev pub commit_job : Env → Act → Job → Action Job
commit_job env (Act.accept job_id user_id worker) = accept_row env job_id user_id
commit_job env (Act.start job_id user_id) = start_row env job_id
commit_job env (Act.complete job_id user_id employer) = complete_row env job_id
commit_job env (Act.cancel job_id user_id reason) = cancel_row env job_id user_id reason

-- A request that holds the lock of a job, with the row that it read.
pub record Session : Type 0 where
  pub act : Act
  pub job : Job

-- The shared state, and who holds a lock.
pub record System : Type 0 where
  pub world : World
  pub sessions : Table Session

abbrev pub is_locked : ℕ → Table Session → Bool
is_locked job_id [] = false
is_locked job_id ((_, s) ∷ sessions) = job_of s.act == job_id || is_locked job_id sessions

-- The locks that a session held are free.
abbrev pub leave : ℕ → Table Session → Table Session
leave k [] = []
leave k ((j, s) ∷ sessions) = if j == k then leave k sessions else (j, s) ∷ leave k sessions

-- A call whose query locks the worker's row together with that of the job, where there may be none.
abbrev pub locks_worker : Act → Bool
locks_worker (Act.accept _ _ _) = false
locks_worker (Act.start _ _) = false
locks_worker (Act.complete _ _ _) = true
locks_worker (Act.cancel _ _ _) = true

-- What the scheduler picks: a session `k` that begins, one that commits, or a call that locks no job.
pub data Event : Type 0 where
  begins : Env → ℕ → Act → Event
  commits : Env → ℕ → Event
  passes : Env → Call → Event

-- Nothing is in the way of a session that holds its lock.
abbrev pub holding : Env → Env
holding env = record env { locked = λ _. false; locks_nullable = true }

abbrev pub joined : ℕ → Act → Result Job → System → System
joined k act (err e) sys = sys
joined k act (ok job) sys = record sys {
  sessions = (k, record { act = act; job = job }) ∷ sys.sessions;
}

abbrev committed : Env → ℕ → Option Session → System → System
committed env k none sys = sys
committed env k (some s) sys = record {
  world = (atomic (commit_job (holding env) s.act s.job) sys.world).1;
  sessions = leave k sys.sessions;
}

-- A call that starts no job step, so its events are one step.
abbrev pub locks_no_job : Call → Bool
locks_no_job (Call.accept _ _ _) = false
locks_no_job (Call.start _ _) = false
locks_no_job (Call.complete _ _ _) = false
locks_no_job (Call.cancel _ _ _) = false
locks_no_job _ = true

-- A request on a locked row, under a name that is taken, or with a query that the database cannot run,
-- does not begin; an acceptance then ends
-- with a conflict, and any other call tries again later.
unfoldable pub step : Event → System → System
step (begins env k act) sys =
    if is_locked (job_of act) sys.sessions
      || is_some (lookup k sys.sessions)
      || (locks_worker act && not env.locks_nullable)
    then sys
    else joined k act (lock_job act sys.world).0 sys
step (commits env k) sys = committed env k (lookup k sys.sessions) sys
step (passes env call) sys =
    if locks_no_job call then record sys { world = serve env call sys.world } else sys

unfoldable pub run : List Event → System → System
run [] sys = sys
run (event ∷ events) sys = run events (step event sys)

-- The call that a session makes.
abbrev pub call_of : Act → Call
call_of (Act.accept job_id user_id user) = Call.accept job_id user_id user
call_of (Act.start job_id user_id) = Call.start job_id user_id
call_of (Act.complete job_id user_id user) = Call.complete job_id user_id user
call_of (Act.cancel job_id user_id reason) = Call.cancel job_id user_id reason

abbrev done_by : Env → Option Session → List (Env × Call)
done_by env none = []
done_by env (some s) = (holding env, call_of s.act) ∷ []

-- The calls of a run one after the other: those on jobs at the time when they commit.
abbrev done_in : Event → System → List (Env × Call)
done_in (begins env k act) sys = []
done_in (commits env k) sys = done_by env (lookup k sys.sessions)
done_in (passes env call) sys = if locks_no_job call then (env, call) ∷ [] else []

unfoldable pub in_order : List Event → System → List (Env × Call)
in_order [] sys = []
in_order (event ∷ events) sys = done_in event sys ++ in_order events (step event sys)
