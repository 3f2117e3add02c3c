-- ===== src/Examples/Concurrent.antt =====
-- Runs of requests that overlap.
use ishly_back.Prelude.{◌≡◌, ◌==◌, refl, inl, inr, Bool, ℕ, List, [], ◌∷◌, arith, Bool-cases}
use ishly_back.Data.Accounts.{UserRole}
use ishly_back.Data.Jobs.{JobStatus}
use ishly_back.World.{Env}
use ishly_back.Jobs.Status.{Act}
use ishly_back.Market.Calls.{Call, serve_all}
use ishly_back.Market.Sessions.{Event, begins, commits, passes, System, run, in_order}
use ishly_back.Market.Sessions.Rows.{IsKeyed}
use ishly_back.Market.Sessions.Steady.{IsSteady}
use ishly_back.Market.Sessions.Serial.{run-serve_all}
use ishly_back.Market.Roles.{HasRoles, serve_all-HasRoles}
use ishly_back.Examples.Fixtures.{env, user_of, job_with, created_job, world_with}

abbrev quiet : System
quiet = record { world = world_with created_job; sessions = [] }

-- Two workers want one job, and the second one comes while the row is locked.
abbrev overlapping : List Event
overlapping =
    begins env 1 (Act.accept 5 2 (user_of UserRole.worker))
    ∷ begins env 2 (Act.accept 5 3 (user_of UserRole.worker))
    ∷ passes env (Call.tick 3)
    ∷ commits env 1
    ∷ begins env 3 (Act.start 5 2)
    ∷ begins env 4 (Act.cancel 5 1 "late")
    ∷ commits env 3
    ∷ commits env 4
    ∷ []

created-IsKeyed : IsKeyed (world_with created_job)
created-IsKeyed k le = ground arith

quiet-IsSteady : IsSteady quiet
quiet-IsSteady = record { keyed = created-IsKeyed; reads = tt; apart = tt }

run-serve_all_example :
    ((run overlapping quiet).world
      ≡ serve_all (in_order overlapping quiet) (world_with created_job))
    × IsSteady (run overlapping quiet)
run-serve_all_example = run-serve_all overlapping quiet quiet-IsSteady

-- user 1 is the only employer
abbrev boss : ℕ → Bool
boss u = u == 1

taken-HasRoles : HasRoles boss (world_with (job_with JobStatus.in_progress))
taken-HasRoles k job found = elim (Bool-cases (5 == k)) [
  | inl same ↦ (ground (arith, same), λ u is_worker. ground (arith, same))
  | inr other ↦ absurd (ground (arith, other))
]

abbrev honest_calls : List (Env × Call)
honest_calls = (env, Call.cancel 5 1 "late") ∷ (env, Call.accept 5 2 (user_of UserRole.worker)) ∷ []

serve_all-HasRoles_example :
    HasRoles boss (serve_all honest_calls (world_with (job_with JobStatus.in_progress)))
serve_all-HasRoles_example =
    serve_all-HasRoles boss honest_calls (world_with (job_with JobStatus.in_progress))
      (tt, (λ role. refl, tt)) taken-HasRoles
