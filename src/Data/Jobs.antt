-- ===== src/Data/Jobs.antt =====
-- apps/jobs/models.py: the job and its states. A double is the number that its 64 bits spell.
-- Times are whole seconds. `updated_at` is left out: nothing reads it back.
use ishly_back.Prelude.{ℕ, Bool, true, false, Option, String}

abbrev pub Double : Type 0
Double = ℕ

pub data JobStatus : Type 0 where
  created accepted in_progress completed cancelled : JobStatus

pub JobStatus-discrete : Discrete JobStatus
JobStatus-discrete = hlevel

pub record JobCategory : Type 0 where
  pub name : String
  pub slug : String
  pub is_active : Bool
  pub sort_order : ℕ

-- the fields that `CreateJobSerializer` lets through
pub record JobFields : Type 0 where
  pub title : String
  pub description : String
  pub category : ℕ
  pub price : ℕ
  pub latitude : Double
  pub longitude : Double
  pub address : String
  pub scheduled_time : Option ℕ

pub record Job : Type 0 where
  pub fields : JobFields
  pub open fields use *
  pub employer : ℕ
  pub worker : Option ℕ
  pub status : JobStatus
  pub created_at : ℕ
  pub accepted_at : Option ℕ
  pub started_at : Option ℕ
  pub completed_at : Option ℕ
  pub cancelled_at : Option ℕ
  pub cancel_reason : String

-- `status == JobStatus.CREATED`
abbrev pub is_created : JobStatus → Bool
is_created JobStatus.created = true
is_created JobStatus.accepted = false
is_created JobStatus.in_progress = false
is_created JobStatus.completed = false
is_created JobStatus.cancelled = false

abbrev pub is_accepted : JobStatus → Bool
is_accepted JobStatus.created = false
is_accepted JobStatus.accepted = true
is_accepted JobStatus.in_progress = false
is_accepted JobStatus.completed = false
is_accepted JobStatus.cancelled = false

abbrev pub is_in_progress : JobStatus → Bool
is_in_progress JobStatus.created = false
is_in_progress JobStatus.accepted = false
is_in_progress JobStatus.in_progress = true
is_in_progress JobStatus.completed = false
is_in_progress JobStatus.cancelled = false

abbrev pub is_completed : JobStatus → Bool
is_completed JobStatus.created = false
is_completed JobStatus.accepted = false
is_completed JobStatus.in_progress = false
is_completed JobStatus.completed = true
is_completed JobStatus.cancelled = false

-- `Job.can_be_cancelled`: neither completed nor cancelled
abbrev pub can_be_cancelled : JobStatus → Bool
can_be_cancelled JobStatus.created = true
can_be_cancelled JobStatus.accepted = true
can_be_cancelled JobStatus.in_progress = true
can_be_cancelled JobStatus.completed = false
can_be_cancelled JobStatus.cancelled = false
