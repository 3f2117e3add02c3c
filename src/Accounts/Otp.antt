-- ===== src/Accounts/Otp.antt =====
-- `OTPService` of apps/accounts/services.py, over the gateway of apps/accounts/telegram_gateway.py.
use Prim.Native.String.{◌++◌}
use text.Mathlib.Text.{◌==◌}
use ishly_back.Prelude.{
  ℕ, zero, suc, ◌+◌, Bool, true, false, not, ◌&&◌, String, Option, none, some, List, [], ◌∷◌, keep,
  leb, ltb, if◌then◌else◌,
}
use ishly_back.Prelude.Table.{insert, modify}
use ishly_back.Core.Errors.{Error}
use ishly_back.Data.Accounts.{TelegramOtp, is_expired}
use ishly_back.World.{
  World, Action, Effect, Counter, ok, pure, raise_if, gets, get_or_raise, modify_db, emit, ◌>>=◌,
  ◌>>◌,
}

-- What the Telegram gateway answers: the identifier of a message sent, or nothing where it failed;
-- whether a code is valid, or nothing where it could not be reached.
pub record Gateway : Type 0 where
  pub send : String → Option String
  pub verify : String → String → Option Bool
  -- the first 16 hex digits of SHA-256
  pub digest : String → String

-- `OTPService.RATE_LIMIT_COUNT` and `RATE_LIMIT_WINDOW`
abbrev pub rate_limit_count : ℕ
rate_limit_count = 3

abbrev pub rate_limit_window : ℕ
rate_limit_window = 600

-- `get_otp_rate_limit_key` of apps/core/utils.py
unfoldable pub get_otp_rate_limit_key : Gateway → String → String
get_otp_rate_limit_key gateway phone = "otp_rate:" ++ gateway.digest phone

-- `cache.get(key, 0)`
abbrev pub live_count : ℕ → Option Counter → ℕ
live_count now none = 0
live_count now (some c) = if ltb now c.expires_at then c.count else 0

unfoldable pub cache_get : String → World → ℕ
cache_get key w = live_count w.now (w.cache key)

abbrev pub put : String → Counter → (String → Option Counter) → String → Option Counter
put key c cache k = if k == key then some c else cache k

-- `cache.set(key, 1, timeout)` for the first send, else `cache.incr`, which keeps the timeout
abbrev pub counted : ℕ → Option Counter → ℕ → Counter
counted now c zero = record { count = 1; expires_at = now + rate_limit_window }
counted now none (suc n) = record { count = 1; expires_at = now + rate_limit_window }
counted now (some c) (suc n) = record c { count = c.count + 1 }

unfoldable pub count_send : String → ℕ → Action (Unit {0})
count_send key send_count w =
    (ok tt, record w { cache = put key (counted w.now (w.cache key) send_count) w.cache })

-- an unused code of this phone
abbrev pub is_open : String → ℕ × TelegramOtp → Bool
is_open phone (_, otp) = otp.phone_number == phone && not otp.is_used

unfoldable pub revoke_all : List (ℕ × TelegramOtp) → Action (Unit {0})
revoke_all [] = pure tt
revoke_all ((_, otp) ∷ rest) = do emit (Effect.revoke_otp otp.request_id); revoke_all rest

abbrev pub new_otp : String → String → ℕ → TelegramOtp
new_otp phone request_id now = record {
  phone_number = phone;
  request_id = request_id;
  is_used = false;
  created_at = now;
}

-- `OTPService.send_otp`. It is not atomic: what a failing gateway leaves behind stays.
unfoldable pub send_otp : Gateway → String → Action (Unit {0})
send_otp gateway phone = do
  let key = get_otp_rate_limit_key gateway phone
  send_count ← gets (cache_get key)
  raise_if (leb rate_limit_count send_count) Error.rate_limit
  existing ← gets (λ w. keep (is_open phone) w.telegram_otps)
  revoke_all existing
  modify_db
      (λ db. record db { telegram_otps = keep (λ row. not (is_open phone row)) db.telegram_otps })
  request_id ← get_or_raise (λ _. gateway.send phone) Error.service_unavailable
  now ← gets (λ w. w.now)
  modify_db (λ db. record db {
    next_id = db.next_id + 1;
    telegram_otps = insert db.next_id (new_otp phone request_id now) db.telegram_otps;
  })
  count_send key send_count

abbrev later : ℕ × TelegramOtp → Option (ℕ × TelegramOtp) → ℕ × TelegramOtp
later row none = row
later row (some best) = if leb best.1.created_at row.1.created_at then row else best

-- `.latest("created_at")`
unfoldable pub latest : List (ℕ × TelegramOtp) → Option (ℕ × TelegramOtp)
latest [] = none
latest (row ∷ rows) = some (later row (latest rows))

abbrev pub used : TelegramOtp → TelegramOtp
used otp = record otp { is_used = true }

-- `OTPService.verify_otp`
unfoldable pub verify_otp : Gateway → String → String → Action Bool
verify_otp gateway phone code = do
  row ← get_or_raise (λ w. latest (keep (is_open phone) w.telegram_otps)) Error.otp
  now ← gets (λ w. w.now)
  raise_if (is_expired now row.1) Error.otp
  valid ← get_or_raise (λ _. gateway.verify row.1.request_id code) Error.service_unavailable
  raise_if (not valid) Error.otp
  modify_db (λ db. record db { telegram_otps = modify row.0 used db.telegram_otps })
  pure true
