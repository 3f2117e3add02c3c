-- ===== src/Accounts/Rates.antt =====
-- `UserService.rate_user` of apps/accounts/services.py: who may rate whom.
use ishly_back.Prelude.{ℕ, ◌≡◌, ◌⊎◌, inl, inr, some, arith, Option-cases}
use ishly_back.Prelude.Table.{lookup, modify}
use ishly_back.Data.Jobs.{Job, JobStatus}
use ishly_back.World.{World, ok}
use ishly_back.Accounts.Users.{Rounding, rate_user, update_rating}

-- A rating that goes through is by one party of a completed job for the other, and changes the
-- rating of that user only, by one vote.
pub rate_user-parties :
    (r : Rounding) (rater target rating job_id : ℕ) (w w' : World)
    → rate_user r rater target rating job_id w ≡ (ok tt, w')
    → (job : Job) × (lookup job_id w.jobs ≡ some job)
      × (job.status ≡ JobStatus.completed)
      × (((job.employer ≡ rater) × (job.worker ≡ some target))
          ⊎ ((job.employer ≡ target) × (job.worker ≡ some rater)))
      × (w'.users ≡ modify target (update_rating r rating) w.users)
unfolding rate_user
rate_user-parties r rater target rating job_id w w' h = elim (Option-cases (lookup job_id w.jobs)) [
  | inl missing ↦ absurd (ground arith)
  | inr (job, found) ↦ elim (Option-cases job.worker) [
    | inl unassigned ↦ absurd (ground arith)
    | inr (worker, assigned) ↦ (job, found, ground arith, ground arith, ground arith)
  ]
]
