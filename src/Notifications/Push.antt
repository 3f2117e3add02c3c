-- ===== src/Notifications/Push.antt =====
-- The push providers of apps/notifications/push.py. Firebase is a parameter.
use text.Mathlib.Text.{◌==◌ as str_eq}
use ishly_back.Prelude.{
  ℕ, ◌+◌, ◌≡◌, Bool, String, Option, none, some, List, [], ◌∷◌, length, if◌then◌else◌,
}

-- The answers of the SDK, where none stands for an exception: to one message, whether it went out, and
-- to a message for many devices the numbers of successes and failures, which make up all devices.
pub record Firebase : Type 0 where
  pub send : String → String → String → Bool
  pub send_each : List String → String → String → Option (ℕ × ℕ)
  pub counts_all :
      (tokens : List String) (title body : String) (good bad : ℕ)
      → send_each tokens title body ≡ some (good, bad)
      → good + bad ≡ length tokens

pub data PushProvider : Type 0 where
  mock : PushProvider
  firebase : Firebase → PushProvider

pub record Delivery : Type 0 where
  pub success : ℕ
  pub failure : ℕ

-- `get_push_provider`, from the name in the settings and the app, if it initializes
unfoldable pub get_push_provider : String → Option Firebase → PushProvider
get_push_provider provider_name none = mock
get_push_provider provider_name (some app) =
    if str_eq provider_name "firebase" then firebase app else mock

-- `send_to_token`
unfoldable pub send_to_token : PushProvider → String → String → String → Delivery
send_to_token mock token title body = record { success = 1; failure = 0 }
send_to_token (firebase app) token title body =
    if app.send token title body
    then record { success = 1; failure = 0 }
    else record { success = 0; failure = 1 }

abbrev counted_delivery : List String → Option (ℕ × ℕ) → Delivery
counted_delivery tokens none = record { success = 0; failure = length tokens }
counted_delivery tokens (some (good, bad)) = record { success = good; failure = bad }

-- `send_to_tokens`
unfoldable pub send_to_tokens : PushProvider → List String → String → String → Delivery
send_to_tokens mock tokens title body = record { success = length tokens; failure = 0 }
send_to_tokens (firebase app) [] title body = record { success = 0; failure = 0 }
send_to_tokens (firebase app) (token ∷ tokens) title body =
    counted_delivery (token ∷ tokens) (app.send_each (token ∷ tokens) title body)
