-- ===== src/Notifications/Sms.antt =====
-- The SMS providers of apps/notifications/sms.py. The Eskiz gateway is a parameter: what it answers to the login and to the message of each try.
-- A send calls itself again after a 401, so the depth that the interpreter allows is its fuel.
use Prim.Native.String.{◌++◌}
use Prim.Native.Char.{code}
use text.Mathlib.Text.{◌==◌ as str_eq}
use ishly_back.Prelude.{
  ℕ, zero, suc, ◌+◌, not, ◌&&◌, ◌||◌, String, Option, none, some, ◌==◌, if◌then◌else◌,
}

-- An answer with its text, a 401, or any other failure.
pub data Answer : Type 0 where
  answered : String → Answer
  unauthorized : Answer
  failed : Answer

-- `auth/login` and `message/sms/send`, at a try; the message gets the token, the number and the text.
pub record Eskiz : Type 0 where
  pub login : ℕ → Answer
  pub post : ℕ → String → String → String → Answer

-- `phone_number.replace("+", "")`
unfoldable pub without_plus : String → String
without_plus String.[] = ""
without_plus (String.◌∷◌ c s) =
    let rest = without_plus s in if code c == 43 then rest else String.◌∷◌ c rest

abbrev pub log_in_again : Eskiz → ℕ → String → String → Answer → Answer × Option String
log_in_again eskiz try phone message (answered token) =
    (eskiz.post try token (without_plus phone) message, some token)
log_in_again eskiz try phone message unauthorized = (unauthorized, none)
log_in_again eskiz try phone message failed = (failed, none)

-- One request with the headers that `_headers` and `_get_token` make: a login if there is no token.
-- The answer, and the token that is kept.
unfoldable pub try_send : Eskiz → ℕ → Option String → String → String → Answer × Option String
unfolding without_plus
try_send eskiz try none phone message = log_in_again eskiz try phone message (eskiz.login try)
try_send eskiz try (some token) phone message =
    if str_eq token ""
    then log_in_again eskiz try phone message (eskiz.login try)
    else (eskiz.post try token (without_plus phone) message, some token)

-- `EskizSMSProvider.send_sms`: the id of the message, or none for an exception; and the token.
unfoldable pub send_sms :
    Eskiz → ℕ → ℕ → Option String → String → String → Option String × Option String
unfolding try_send
send_sms eskiz zero try token phone message = (none, token)
send_sms eskiz (suc depth) try token phone message =
    let (answer, token') = try_send eskiz try token phone message in
    elim answer [
      | answered id ↦ (some id, token')
      | unauthorized ↦ send_sms eskiz depth (try + 1) none phone message
      | failed ↦ (none, token')
    ]

pub data SmsProvider : Type 0 where
  mock : SmsProvider
  eskiz_sms : Eskiz → SmsProvider

-- `get_sms_provider`, from the name, the e-mail address and the password of the settings
unfoldable pub get_sms_provider : Eskiz → String → String → String → SmsProvider
get_sms_provider gateway provider_name email password =
    if str_eq provider_name "eskiz" && not (str_eq email "" || str_eq password "")
    then eskiz_sms gateway
    else mock

-- `EskizSMSProvider.send_otp`, its text
unfoldable pub otp_message : String → String
otp_message code = "GIG Marketplace: Your verification code is " ++ code ++ ". Valid for 2 minutes."

-- `send_otp` of the providers: the id of the message, and none for an exception
unfoldable pub send_otp_sms : SmsProvider → ℕ → ℕ → String → String → Option String
unfolding otp_message send_sms
send_otp_sms mock depth try phone code = some ("mock_" ++ phone ++ "_" ++ code)
send_otp_sms (eskiz_sms gateway) depth try phone code =
    (send_sms gateway depth try none phone (otp_message code)).0
