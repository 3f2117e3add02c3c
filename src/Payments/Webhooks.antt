-- ===== src/Payments/Webhooks.antt =====
-- The callbacks of apps/payments/views.py. A key in a body that is no number names no request.
use text.Mathlib.Text.{◌==◌ as str_eq}
use ishly_back.Prelude.{ℕ, Bool, false, ◌&&◌, String, Option, none, some, ◌==◌, if◌then◌else◌}
use ishly_back.Core.Errors.{Error}
use ishly_back.World.{World, Env, Action, Result, ok, err, pure, raise, ◌>>◌}
use ishly_back.Payments.Providers.{
  PaymentProvider, ProviderSettings, Payload, Codecs, Value, missing, number, string, is_truthy,
  verify_webhook, get_payment_provider,
}
use ishly_back.Payments.Deposits.{confirm_deposit}

-- What a callback answers.
pub data Reply : Type 0 where
  refused accepted : Reply
  failed : Error → Reply

-- `DepositService.confirm_deposit(order_id)`; `key_of` reads a key out of a text.
abbrev pub confirm_order : Env → (String → Option ℕ) → Value → Action (Unit {0})
confirm_order env key_of missing = raise Error.validation
confirm_order env key_of (number n) = do confirm_deposit env n ""; pure tt
confirm_order env key_of (string s) = elim (key_of s) [
  | none ↦ raise Error.validation
  | some n ↦ (do confirm_deposit env n ""; pure tt)
]

-- The `try` and `except` round a handler.
abbrev pub answer : Result (Unit {0}) × World → Reply × World
answer (ok _, w) = (accepted, w)
answer (err e, w) = (failed e, w)

-- `PaymeWebhookView._handle_payme_method`
unfoldable pub handle_payme_method : Env → (String → Option ℕ) → String → Value → Action (Unit {0})
handle_payme_method env key_of method order_id =
    if str_eq method "PerformTransaction"
    then (if is_truthy order_id then confirm_order env key_of order_id else pure tt)
    else pure tt

-- A handler for the provider; a missing setting is raised outside of the `try`.
abbrev pub for_provider :
    Option PaymentProvider → (PaymentProvider → World → Reply × World) → World → Reply × World
for_provider none handler w = (failed Error.attribute, w)
for_provider (some provider) handler w = handler provider w

-- `PaymeWebhookView.post`
unfoldable pub payme_post :
    Env
    → ProviderSettings
    → Codecs
    → (String → Option ℕ)
    → Payload
    → String
    → String
    → Value
    → World
    → Reply × World
payme_post env providers codecs key_of payload auth_header method order_id w =
    for_provider (get_payment_provider providers "payme")
      (λ provider w'.
        if verify_webhook codecs provider payload auth_header
        then answer (handle_payme_method env key_of method order_id w')
        else (refused, w'))
      w

-- `action == 1`: a text "1" is no number.
abbrev pub is_confirm : Value → Bool
is_confirm missing = false
is_confirm (number n) = n == 1
is_confirm (string s) = false

-- `ClickWebhookView.post`
unfoldable pub click_post :
    Env → ProviderSettings → Codecs → (String → Option ℕ) → Payload → String → World → Reply × World
click_post env providers codecs key_of payload sign w =
    for_provider (get_payment_provider providers "click")
      (λ provider w'.
        if verify_webhook codecs provider payload sign
        then (if is_confirm payload.action && is_truthy payload.merchant_trans_id
            then answer (confirm_order env key_of payload.merchant_trans_id w')
            else (accepted, w'))
        else (refused, w'))
      w
