-- ===== src/Accounts/Telegram.antt =====
-- apps/accounts/telegram_gateway.py: how the answers of the Telegram gateway are read. The requests
-- are a parameter; every answer that arrives is taken to be a JSON object.
use text.Mathlib.Text.{◌==◌}
use ishly_back.Prelude.{
  ℕ, ◌+◌, ◌≤◌, ◌≡◌, Bool, true, false, String, Option, none, some, arith, Option-cases,
  if◌then◌else◌, inl, inr,
}
use ishly_back.World.{World, ok}
use ishly_back.Accounts.Otp.{Gateway, send_otp, verify_otp}
use ishly_back.Accounts.OtpOnce.{at, verify_after_send}

-- `/sendVerificationMessage`: whether it is "ok", and the identifier of its result
pub record SendAnswer : Type 0 where
  pub accepted : Bool
  pub request_id : String

-- `/checkVerificationStatus`: whether it is "ok", and the status in its result, if there is one
pub record CheckAnswer : Type 0 where
  pub accepted : Bool
  pub status : Option String

-- What the requests bring; nothing where the network fails.
pub record Http : Type 0 where
  pub send_message : String → Option SendAnswer
  pub check_status : String → String → Option CheckAnswer
  pub digest : String → String

-- `telegram_gateway.send_otp`, where nothing stands for the exception
abbrev pub read_send : Option SendAnswer → Option String
read_send none = none
read_send (some answer) = if answer.accepted then some answer.request_id else none

abbrev pub is_code_valid : Option String → Bool
is_code_valid none = false
is_code_valid (some status) = status == "code_valid"

-- `telegram_gateway.verify_otp`
abbrev pub read_check : Option CheckAnswer → Option Bool
read_check none = none
read_check (some answer) = some (if answer.accepted then is_code_valid answer.status else false)

unfoldable pub telegram_gateway : Http → Gateway
telegram_gateway http = record {
  send = λ phone. read_send (http.send_message phone);
  verify = λ request_id code. read_check (http.check_status request_id code);
  digest = http.digest;
}

-- What it takes for a verification to return.
pub record IsVerified (http : Http) (phone code : String) (sent now : ℕ) : Type 0 where
  pub sending : SendAnswer
  pub check : CheckAnswer
  pub answered : http.send_message phone ≡ some sending
  pub checked : http.check_status sending.request_id code ≡ some check
  pub accepted : check.accepted ≡ true
  pub status : String
  pub has_status : check.status ≡ some status
  pub valid : (status == "code_valid") ≡ true
  pub in_time : now ≤ sent + 300

-- A login code that was sent over Telegram is verified only within 300 seconds, and only if the
-- gateway, asked about the very message that it sent to this number, answers the status "code_valid".
pub telegram-IsVerified :
    (http : Http) (phone code : String) (t : ℕ) (b : Bool) (w w' v : World)
    → send_otp (telegram_gateway http) phone w ≡ (ok tt, w')
    → verify_otp (telegram_gateway http) phone code (at t w') ≡ (ok b, v)
    → IsVerified http phone code w.now t
unfolding telegram_gateway
telegram-IsVerified http phone code t b w w' v h k =
    let (rid, sent, answer) = verify_after_send (telegram_gateway http) phone code t w w' h in
    elim (Option-cases (http.send_message phone)) [
      | inl failed ↦ absurd (ground arith)
      | inr (sending, answered) ↦ elim (Option-cases (http.check_status sending.request_id code)) [
        | inl failed ↦ absurd (ground arith)
        | inr (check, checked) ↦ elim (Option-cases check.status) [
          | inl lacking ↦ absurd (ground arith)
          | inr (status, has_status) ↦ record {
            sending = sending;
            check = check;
            answered = answered;
            checked = checked;
            accepted = ground arith;
            status = status;
            has_status = has_status;
            valid = ground arith;
            in_time = ground arith;
          }
        ]
      ]
    ]
