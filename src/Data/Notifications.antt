-- ===== src/Data/Notifications.antt =====
-- apps/notifications/models.py, and `DeviceToken` of apps/accounts/models.py. The `data` of a
-- notification is for the client and is left out.
use ishly_back.Prelude.{ℕ, Bool, Option, String}

pub data NotificationType : Type 0 where
  new_job job_accepted job_started job_completed job_cancelled : NotificationType
  payment_received deposit_confirmed system : NotificationType

pub record Notification : Type 0 where
  pub user : ℕ
  pub notification_type : NotificationType
  pub title : String
  pub body : String
  pub is_read : Bool
  pub read_at : Option ℕ

pub record DeviceToken : Type 0 where
  pub user : ℕ
  pub token : String
  pub platform : String
  pub is_active : Bool
  pub last_used_at : Option ℕ
