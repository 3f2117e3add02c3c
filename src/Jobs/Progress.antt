-- ===== src/Jobs/Progress.antt =====
-- How often a job can change: the calls of apps/jobs/services.py against a measure on its states.
use ishly_back.Prelude.{ℕ, ◌+◌, ◌≤◌, ◌≡◌, Option, none, some, List, [], ◌∷◌, arith}
use ishly_back.Prelude.Table.{lookup}
use ishly_back.Data.Jobs.{Job, JobStatus, JobStatus-discrete}
use ishly_back.World.{World, Env}
use ishly_back.Jobs.Status.{
  Act, Move, stay, accepts, starts, completes, cancels, perform, perform-Moved,
}

-- how far a state is in the lifecycle
abbrev pub rank : JobStatus → ℕ
rank JobStatus.created = 0
rank JobStatus.accepted = 1
rank JobStatus.in_progress = 2
rank JobStatus.completed = 3
rank JobStatus.cancelled = 3

-- 1 if the state of a job differs, else 0
abbrev pub differs : Option Job → Option Job → ℕ
differs (some job) (some job') = elim (JobStatus-discrete job.status job'.status) [
  | yes _ ↦ 0
  | no _ ↦ 1
]
differs (some job) none = 1
differs none (some job') = 1
differs none none = 0

-- how many of the calls change the state of the job `k`
unfoldable pub changes : ℕ → List (Env × Act) → World → ℕ
changes k [] w = 0
changes k ((env, act) ∷ acts) w =
    let rest = changes k acts (perform env act w) in
    differs (lookup k w.jobs) (lookup k (perform env act w).jobs) + rest

rank-le : (s : JobStatus) → rank s ≤ 3
rank-le s = ground arith

Move-rank :
    {job job' : Job}
    → Move job job'
    → differs (some job) (some job') + rank job.status ≤ rank job'.status
Move-rank (stay e) = ground arith
Move-rank (accepts worker now status other e) = ground arith
Move-rank (starts worker now status assigned e) = ground arith
Move-rank (completes now worker status assigned e) = ground arith
Move-rank (cancels now reason fresh live e) = ground arith

-- However many calls are made for a job, by whomever and in any order, at most three of them change
-- its state, fewer by one for every state that it has behind it, and none once it is over.
pub changes-le :
    (acts : List (Env × Act)) (w : World) (k : ℕ) (job : Job)
    → lookup k w.jobs ≡ some job
    → changes k acts w + rank job.status ≤ 3
unfolding changes
changes-le [] w k job here = omega (arith, rank-le job.status)
changes-le ((env, act) ∷ acts) w k job here =
    let (mid, there, m) = perform-Moved env act w k job here in
    ground (arith, here, there, Move-rank m, changes-le acts (perform env act w) k mid there)
