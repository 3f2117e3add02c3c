-- ===== src/Api/Objects.antt =====
-- The object permissions of apps/core/permissions.py. No view names them yet.
use ishly_back.Prelude.{
  ℕ, ◌≡◌, Bool, true, false, ◌||◌, Option, none, some, List, [], ◌∷◌, ◌==◌, is_key, if◌then◌else◌,
  arith,
}
use ishly_back.Data.Accounts.{User}
use ishly_back.Data.Jobs.{Job}
use ishly_back.Api.Access.{Requester}

-- `getattr(obj, attr, None)` for "user", "employer", "worker" and "created_by"
pub record Owners : Type 0 where
  pub user : Option ℕ
  pub employer : Option ℕ
  pub worker : Option ℕ
  pub created_by : Option ℕ

-- `owner is not None and owner == request.user`, for one attribute after the other
unfoldable pub is_one_of : List (Option ℕ) → ℕ → Bool
is_one_of [] user_id = false
is_one_of (owner ∷ owners) user_id = is_key owner user_id || is_one_of owners user_id

-- `IsOwnerOrAdmin.has_object_permission`
unfoldable pub is_owner_or_admin : Owners → ℕ → User → Bool
is_owner_or_admin obj user_id user =
    if user.is_staff
    then true
    else is_one_of (obj.user ∷ obj.employer ∷ obj.worker ∷ obj.created_by ∷ []) user_id

-- `IsJobEmployer` and `IsJobWorker`
unfoldable pub is_job_employer : Job → ℕ → Bool
is_job_employer job user_id = job.employer == user_id

unfoldable pub is_job_worker : Job → ℕ → Bool
is_job_worker job user_id = is_key job.worker user_id

-- `IsEmployerOrWorker.has_permission`
unfoldable pub is_employer_or_worker : Requester → Bool
is_employer_or_worker none = false
is_employer_or_worker (some _) = true

abbrev pub owners_of : Job → Owners
owners_of job = record {
  user = none;
  employer = some job.employer;
  worker = job.worker;
  created_by = none;
}

-- A job is open to its parties and to the staff: to whoever is the employer or the worker of it.
pub is_owner_or_admin-job :
    (job : Job) (user_id : ℕ) (user : User)
    → is_owner_or_admin (owners_of job) user_id user
      ≡ (user.is_staff || is_job_employer job user_id || is_job_worker job user_id)
unfolding is_owner_or_admin is_one_of is_job_employer is_job_worker
is_owner_or_admin-job job user_id user = ground arith
