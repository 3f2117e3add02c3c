-- ===== src/Jobs/Discovery/Mine.antt =====
-- `my_jobs` of apps/jobs/views.py: the jobs of the user who asks.
use text.Mathlib.Text.{◌==◌ as str_eq}
use ishly_back.Prelude.{ℕ, Bool, true, ◌||◌, String, List, keep, arith, ◌==◌, is_key, if◌then◌else◌}
use ishly_back.Core.Sorting.{sort, IsOrdered, SameRows, sort-IsOrdered, count-sort}
use ishly_back.Data.Accounts.{User, is_employer}
use ishly_back.Data.Jobs.{Job, JobStatus}
use ishly_back.World.{World}
use ishly_back.Jobs.Discovery.{Found, without_distance, newer}

-- the text that stands for a state in the database and in a query
abbrev pub status_value : JobStatus → String
status_value JobStatus.created = "created"
status_value JobStatus.accepted = "accepted"
status_value JobStatus.in_progress = "in_progress"
status_value JobStatus.completed = "completed"
status_value JobStatus.cancelled = "cancelled"

-- `status_filter in JobStatus.values`
abbrev pub is_status : String → Bool
is_status s =
    str_eq s "created"
    || str_eq s "accepted"
    || str_eq s "in_progress"
    || str_eq s "completed"
    || str_eq s "cancelled"

-- the jobs that a user posted, or took
unfoldable pub is_mine : ℕ → User → ℕ × Job → Bool
is_mine user_id user (_, job) =
    if is_employer user then job.employer == user_id else is_key job.worker user_id

-- A filter that is no state is ignored.
unfoldable pub has_status : String → ℕ × Job → Bool
has_status status_filter (_, job) =
    if is_status status_filter then str_eq (status_value job.status) status_filter else true

-- `JobViewSet.my_jobs`; an absent filter is the empty text
unfoldable pub my_jobs : ℕ → User → String → World → List Found
unfolding is_mine has_status
my_jobs user_id user status_filter w =
    let mine = keep (is_mine user_id user) w.jobs in
    sort newer (without_distance (keep (has_status status_filter) mine))

-- A user gets exactly the jobs that they posted as an employer, or else took as a worker, in the state
-- asked for, or all of them if the filter is no state; the newest come first.
pub my_jobs-list :
    (user_id : ℕ) (user : User) (status_filter : String) (w : World)
    → let answer = my_jobs user_id user status_filter w in
      let mine = keep (is_mine user_id user) w.jobs in
      SameRows answer (without_distance (keep (has_status status_filter) mine))
      × IsOrdered newer answer
unfolding my_jobs
my_jobs-list user_id user status_filter w =
    (λ p. count-sort newer p _, sort-IsOrdered newer (λ x y h. ground arith) _)
