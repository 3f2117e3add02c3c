-- ===== src/Payments/Providers.antt =====
-- apps/payments/providers/payment_providers.py: the three providers and the factory. What a provider
-- asks of the network (`check_payment`, `_call`) is not modelled: no service calls it.
use Prim.Native.String.{◌++◌}
use text.Mathlib.Text.{◌==◌}
use ishly_back.Prelude.{
  ℕ, Bool, true, false, ◌&&◌, String, Option, none, some, List, [], ◌∷◌, if◌then◌else◌,
}
use ishly_back.Core.Text.{str, str_uzs, split_colon}

pub data PaymentProvider : Type 0 where
  mock : PaymentProvider
  payme : String → String → Bool → PaymentProvider
  click : String → String → String → PaymentProvider

-- The PAYME_ and CLICK_ settings that the factory reads, where all of those of a provider are set.
pub record PaymeSettings : Type 0 where
  pub merchant_id : String
  pub secret : String
  pub test_mode : Bool

pub record ClickSettings : Type 0 where
  pub service_id : String
  pub merchant_id : String
  pub secret_key : String

pub record ProviderSettings : Type 0 where
  pub payme_settings : Option PaymeSettings
  pub click_settings : Option ClickSettings

abbrev payme_of : Option PaymeSettings → Option PaymentProvider
payme_of none = none
payme_of (some s) = some (payme s.merchant_id s.secret s.test_mode)

abbrev click_of : Option ClickSettings → Option PaymentProvider
click_of none = none
click_of (some s) = some (click s.service_id s.merchant_id s.secret_key)

-- `get_payment_provider`: an unknown name falls back to the mock provider, and there is none where a
-- setting is missing.
unfoldable pub get_payment_provider : ProviderSettings → String → Option PaymentProvider
get_payment_provider s name =
    if name == "mock"
    then some mock
    else if name == "payme"
    then payme_of s.payme_settings
    else if name == "click"
    then click_of s.click_settings
    else some mock

-- The answer of `create_payment`; its status is always "pending".
pub record Payment : Type 0 where
  pub external_id : String
  pub payment_url : String

-- `create_payment`, with the random hex digits of the mock provider's identifier
unfoldable pub create_payment : PaymentProvider → String → ℕ → String → String → String → Payment
create_payment mock hex amount order_id description return_url = record {
  external_id = "mock_" ++ hex;
  payment_url = "https://mock-payment.example.com/pay/mock_" ++ hex;
}
create_payment (payme merchant_id key test_mode) hex amount order_id description return_url =
    record {
      external_id = order_id;
      payment_url =
          "https://test.paycom.uz/"
          ++ merchant_id
          ++ "?amount="
          ++ str amount
          ++ "&order_id="
          ++ order_id
          ++ "&description="
          ++ description;
    }
create_payment (click service_id merchant_id secret_key) hex amount order_id description
      return_url =
    record {
      external_id = order_id;
      payment_url =
          "https://my.click.uz/services/pay"
          ++ "?service_id="
          ++ service_id
          ++ "&merchant_id="
          ++ merchant_id
          ++ "&amount="
          ++ str_uzs amount
          ++ "&transaction_param="
          ++ order_id
          ++ "&return_url="
          ++ return_url;
    }

-- A value of a request body, as far as the handlers look at it.
pub data Value : Type 0 where
  missing : Value
  number : ℕ → Value
  string : String → Value

-- `f"{value}"`
unfoldable pub show : Value → String
show missing = "None"
show (number n) = str n
show (string s) = s

-- `if value`
abbrev pub is_truthy : Value → Bool
is_truthy missing = false
is_truthy (number n) = elim n [ ℕ.zero ↦ false | ℕ.suc _ ↦ true ]
is_truthy (string s) = if s == "" then false else true

-- The fields that the Click signature covers, and the one that says what to do.
pub record Payload : Type 0 where
  pub click_trans_id : Value
  pub merchant_trans_id : Value
  pub amount : Value
  pub action : Value
  pub sign_time : Value

-- `base64.b64decode(...).decode()`, which may raise, and the hex digest of MD5
pub record Codecs : Type 0 where
  pub b64decode : String → Option String
  pub md5_hex : String → String

abbrev matches_pair : String → String → List String → Bool
matches_pair merchant_id key (m ∷ k ∷ []) = m == merchant_id && k == key
matches_pair merchant_id key _ = false

abbrev matches_header : String → String → Option String → Bool
matches_header merchant_id key none = false
matches_header merchant_id key (some decoded) = matches_pair merchant_id key (split_colon decoded)

-- the text that Click signs
unfoldable pub sign_string : String → String → Payload → String
sign_string service_id secret_key payload =
    show payload.click_trans_id
    ++ service_id
    ++ secret_key
    ++ show payload.merchant_trans_id
    ++ show payload.amount
    ++ show payload.action
    ++ show payload.sign_time

-- `verify_webhook`
unfoldable pub verify_webhook : Codecs → PaymentProvider → Payload → String → Bool
verify_webhook codecs mock payload signature = true
verify_webhook codecs (payme merchant_id key test_mode) payload signature =
    matches_header merchant_id key (codecs.b64decode signature)
verify_webhook codecs (click service_id merchant_id secret_key) payload signature =
    signature == codecs.md5_hex (sign_string service_id secret_key payload)
