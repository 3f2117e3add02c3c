-- ===== src/Accounts/Tasks.antt =====
-- apps/accounts/tasks.py, with `OTPCode` of apps/accounts/models.py. Celery runs a task again after
-- `self.retry`, until `max_retries` of them.
use ishly_back.Prelude.{
  ℕ, zero, suc, ◌+◌, ◌*◌, ◌^◌, ◌≡◌, refl, inl, inr, Bool, true, false, not, ◌&&◌, String, Option,
  none, some, List, [], ◌∷◌, All, length, ltb, arith, Bool-cases,
}
use ishly_back.Notifications.Sms.{SmsProvider, send_otp_sms}

-- How a run of the task ends: with the id of the message, or with a retry after some seconds.
pub data TaskResult : Type 0 where
  sent : String → TaskResult
  retry : ℕ → TaskResult

abbrev sent_or_retry : ℕ → Option String → TaskResult
sent_or_retry retries none = retry (2 ^ retries * 10)
sent_or_retry retries (some id) = sent id

-- What the task is given, with the call depth and, for each run, the number of its first request to the
-- gateway.
pub record SmsTask : Type 0 where
  pub provider : SmsProvider
  pub depth : ℕ
  pub first_try : ℕ → ℕ
  pub phone_number : String
  pub code : String

abbrev pub attempt : SmsTask → ℕ → Option String
attempt t retries = send_otp_sms t.provider t.depth (t.first_try retries) t.phone_number t.code

-- `send_otp_sms_task`, as the run with this number of retries before it
unfoldable pub send_otp_sms_task : SmsTask → ℕ → TaskResult
send_otp_sms_task t retries = sent_or_retry retries (attempt t retries)

abbrev again : ℕ → Option String × ℕ → Option String × ℕ
again countdown (r, waited) = (r, countdown + waited)

-- The runs of the task, with `left` retries to go: the id of the message, if it was sent, and the
-- seconds of waiting.
unfoldable pub run_task : SmsTask → ℕ → ℕ → Option String × ℕ
run_task t zero retries = elim (send_otp_sms_task t retries) [
  | sent id ↦ (some id, 0)
  | retry countdown ↦ (none, 0)
]
run_task t (suc left) retries =
    let rest = run_task t left (retries + 1) in
    elim (send_otp_sms_task t retries) [
      | sent id ↦ (some id, 0)
      | retry countdown ↦ again countdown rest
    ]

-- `max_retries`
abbrev pub max_retries : ℕ
max_retries = 3

-- `OTPCode`, as far as the cleanup reads it
pub record OtpCode : Type 0 where
  pub phone_number : String
  pub is_used : Bool
  pub expires_at : ℕ

-- `OTPCode.is_expired`
unfoldable pub is_code_expired : ℕ → OtpCode → Bool
is_code_expired now row = ltb row.expires_at now

-- `filter(expires_at__lt=cutoff, is_used=False)`
abbrev pub is_stale_code : ℕ → OtpCode → Bool
is_stale_code cutoff row = ltb row.expires_at cutoff && not row.is_used

abbrev with_deleted : Bool → OtpCode → ℕ × List OtpCode → ℕ × List OtpCode
with_deleted true row (n, rows) = (n + 1, rows)
with_deleted false row (n, rows) = (n, row ∷ rows)

-- `cleanup_expired_otps`: how many rows are deleted, and the rows that stay
unfoldable pub cleanup_expired_otps : ℕ → List OtpCode → ℕ × List OtpCode
cleanup_expired_otps now [] = (0, [])
cleanup_expired_otps now (row ∷ rows) =
    with_deleted (is_stale_code now row) row (cleanup_expired_otps now rows)

-- The cleanup answers how many rows it deletes, keeps only codes that were used or are not expired, and
-- finds nothing to do when it runs again at once.
pub cleanup_expired_otps-again :
    (now : ℕ) (rows : List OtpCode)
    → let (n, kept) = cleanup_expired_otps now rows in
      (n + length kept ≡ length rows)
      × All (λ row. (is_code_expired now row && not row.is_used) ≡ false) kept
      × (cleanup_expired_otps now kept ≡ (0, kept))
unfolding cleanup_expired_otps is_code_expired
cleanup_expired_otps-again now [] = (refl, tt, refl)
cleanup_expired_otps-again now (row ∷ rows) =
    let (sum, clean, again_none) = cleanup_expired_otps-again now rows in
    elim (Bool-cases (is_stale_code now row)) [
      | inl stale ↦ rw stale (omega (arith, sum), clean, again_none)
      | inr kept ↦ rw kept (omega (arith, sum), (kept, clean), rw kept (rw again_none refl))
    ]
