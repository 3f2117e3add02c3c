-- ===== src/Market/Sessions/Steady.antt =====
-- What sessions know of the rows that they hold, and that no step of another takes it from them.
use ishly_back.Prelude.{
  ℕ, ◌<◌, ◌≡◌, ◌≢◌, refl, ◌∙◌, inl, inr, true, false, none, some, [], ◌∷◌, All, arith, Bool-cases,
  Option-cases, ◌==◌, ltb, ==_refl,
}
use ishly_back.Prelude.Table.{Table, lookup}
use ishly_back.Data.Jobs.{Job}
use ishly_back.World.{World, Env, ok, atomic}
use ishly_back.Jobs.Service.{accept_job, start_job, complete_job, cancel_job}
use ishly_back.Jobs.Status.{Act}
use ishly_back.Market.Calls.{serve}
use ishly_back.Market.Sessions.{
  Session, System, job_of, call_of, lock_job, commit_job, holding, is_locked, leave,
}
use ishly_back.Market.Sessions.Rows.{IsKeyed, Writes, Writes-elsewhere}

-- A session whose row is still the one that it read commits as the whole call does.
pub commit-serve :
    (env : Env) (act : Act) (job : Job) (w : World)
    → (lock_job act w).0 ≡ ok job
    → (atomic (commit_job (holding env) act job) w).1 ≡ serve (holding env) (call_of act) w
unfolding serve accept_job start_job complete_job cancel_job atomic
commit-serve env (Act.accept job_id user_id user) job w h =
    elim (Option-cases (lookup job_id w.jobs)) [
      | inl missing ↦ absurd (ground arith)
      | inr (row, found) ↦ ground (arith, found)
    ]
commit-serve env (Act.start job_id user_id) job w h = elim (Option-cases (lookup job_id w.jobs)) [
  | inl missing ↦ absurd (ground arith)
  | inr (row, found) ↦ ground (arith, found)
]
commit-serve env (Act.complete job_id user_id user) job w h =
    elim (Option-cases (lookup job_id w.jobs)) [
      | inl missing ↦ absurd (ground arith)
      | inr (row, found) ↦ ground (arith, found)
    ]
commit-serve env (Act.cancel job_id user_id reason) job w h =
    elim (Option-cases (lookup job_id w.jobs)) [
      | inl missing ↦ absurd (ground arith)
      | inr (row, found) ↦ ground (arith, found)
    ]

-- Whether a row can be locked and read depends on that row only.
lock_job-stable :
    (act : Act) (w w' : World)
    → lookup (job_of act) w'.jobs ≡ lookup (job_of act) w.jobs
    → (lock_job act w').0 ≡ (lock_job act w).0
lock_job-stable (Act.accept job_id user_id user) w w' same = ground (arith, same)
lock_job-stable (Act.start job_id user_id) w w' same = ground (arith, same)
lock_job-stable (Act.complete job_id user_id user) w w' same = ground (arith, same)
lock_job-stable (Act.cancel job_id user_id reason) w w' same = ground (arith, same)

lock_job-found :
    (act : Act) (job : Job) (w : World)
    → (lock_job act w).0 ≡ ok job
    → lookup (job_of act) w.jobs ≢ none
lock_job-found (Act.accept job_id user_id user) job w h none_there = ground (arith, none_there)
lock_job-found (Act.start job_id user_id) job w h none_there = ground (arith, none_there)
lock_job-found (Act.complete job_id user_id user) job w h none_there = ground (arith, none_there)
lock_job-found (Act.cancel job_id user_id reason) job w h none_there = ground (arith, none_there)

pub lock_job-keyed :
    (act : Act) (job : Job) (w : World)
    → (lock_job act w).0 ≡ ok job
    → IsKeyed w
    → job_of act < w.next_id
lock_job-keyed act job w h keyed = elim (Bool-cases (ltb (job_of act) w.next_id)) [
  | inl below ↦ ground arith
  | inr above ↦ absurd (lock_job-found act job w h (keyed (job_of act) (ground arith)))
]

-- No two sessions hold the lock of one job.
abbrev pub IsApart : Table Session → Type 0
IsApart [] = Unit
IsApart ((_, s) ∷ sessions) = (is_locked (job_of s.act) sessions ≡ false) × IsApart sessions

-- A session has what its row still is.
abbrev pub HasRead : World → ℕ × Session → Type 0
HasRead w (_, s) = (lock_job s.act w).0 ≡ ok s.job

abbrev pub IsOnOther : ℕ → ℕ × Session → Type 0
IsOnOther job_id (_, s) = job_of s.act ≢ job_id

pub record IsSteady (sys : System) : Type 0 where
  pub keyed : IsKeyed sys.world
  pub reads : All (HasRead sys.world) sys.sessions
  pub apart : IsApart sys.sessions

is_locked-leave :
    (job_id k : ℕ) (sessions : Table Session)
    → is_locked job_id sessions ≡ false
    → (is_locked job_id (leave k sessions) ≡ false) × All (IsOnOther job_id) (leave k sessions)
is_locked-leave job_id k [] h = (refl, tt)
is_locked-leave job_id k ((j, s) ∷ sessions) h = ground (arith, is_locked-leave job_id k sessions)

pub IsApart-leave :
    (k : ℕ) (sessions : Table Session) → IsApart sessions → IsApart (leave k sessions)
IsApart-leave k [] h = tt
IsApart-leave k ((j, s) ∷ sessions) (h, hs) =
    ground (arith, is_locked-leave (job_of s.act) k sessions h, IsApart-leave k sessions hs)

lookup-is_locked :
    (k : ℕ) (sessions : Table Session) (s : Session)
    → lookup k sessions ≡ some s
    → is_locked (job_of s.act) sessions ≡ true
lookup-is_locked k [] s h = absurd (ground arith)
lookup-is_locked k ((j, t) ∷ sessions) s h =
    ground (arith, ==_refl (job_of s.act), lookup-is_locked k sessions s)

-- Those who stay when a session leaves are on other jobs.
pub others :
    (k : ℕ) (sessions : Table Session) (s : Session)
    → lookup k sessions ≡ some s
    → IsApart sessions
    → All (IsOnOther (job_of s.act)) (leave k sessions)
others k [] s h apart = tt
others k ((j, t) ∷ sessions) s h (free, apart) = elim (Bool-cases (j == k)) [
  | inl same ↦ ground (arith, same, is_locked-leave (job_of t.act) k sessions free)
  | inr other ↦ ground (arith, other, lookup-is_locked k sessions s, others k sessions s)
]

pub All-leave :
    (P : ℕ × Session → Type 0) (k : ℕ) (sessions : Table Session)
    → All P sessions
    → All P (leave k sessions)
All-leave P k [] h = tt
All-leave P k ((j, s) ∷ sessions) (h, hs) = elim (Bool-cases (j == k)) [
  | inl same ↦ rw same (All-leave P k sessions hs)
  | inr other ↦ rw other (h, All-leave P k sessions hs)
]

-- Sessions have read their rows in every world where these are the same.
pub reads_stable :
    (w w' : World) (sessions : Table Session)
    → All (HasRead w) sessions
    → ((act : Act) (job : Job)
        → (lock_job act w).0 ≡ ok job
        → lookup (job_of act) w'.jobs ≡ lookup (job_of act) w.jobs)
    → All (HasRead w') sessions
reads_stable w w' [] reads same = tt
reads_stable w w' ((k, s) ∷ sessions) (read, reads) same = (
  lock_job-stable s.act w w' (same s.act s.job read) ∙ read,
  reads_stable w w' sessions reads same,
)

pub reads_elsewhere :
    (w w' : World) (job_id : ℕ) (sessions : Table Session)
    → Writes job_id w w'
    → All (HasRead w) sessions
    → All (IsOnOther job_id) sessions
    → All (HasRead w') sessions
reads_elsewhere w w' job_id [] writes reads on_others = tt
reads_elsewhere w w' job_id ((k, s) ∷ sessions) writes (read, reads) (other, on_others) = (
  lock_job-stable s.act w w' (Writes-elsewhere job_id w w' writes (job_of s.act) other) ∙ read,
  reads_elsewhere w w' job_id sessions writes reads on_others,
)

pub lookup-HasRead :
    (w : World) (k : ℕ) (sessions : Table Session) (s : Session)
    → lookup k sessions ≡ some s
    → All (HasRead w) sessions
    → (lock_job s.act w).0 ≡ ok s.job
lookup-HasRead w k [] s h reads = absurd (ground arith)
lookup-HasRead w k ((j, t) ∷ sessions) s h (read, reads) = elim (Bool-cases (j == k)) [
  | inl same ↦ ground (arith, same)
  | inr other ↦ ground (arith, other, lookup-HasRead w k sessions s)
]
