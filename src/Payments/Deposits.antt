-- ===== src/Payments/Deposits.antt =====
-- `DepositService` of apps/payments/services.py: a request for a deposit, and its confirmation.
use text.Mathlib.Text.{◌==◌}
use ishly_back.Prelude.{ℕ, ◌+◌, String, Option, none, some, ltb, if◌then◌else◌}
use ishly_back.Prelude.Table.{lookup, insert, modify}
use ishly_back.Core.Errors.{Error}
use ishly_back.Core.Text.{str}
use ishly_back.Data.Payments.{Transaction, PaymentRequest, TransactionStatus, is_pending}
use ishly_back.World.{
  World, Env, Action, pure, raise_if, get_or_raise, gets, modify_db, atomic, ◌>>=◌, ◌>>◌,
}
use ishly_back.Payments.Wallets.{get_wallet, deposit}
use ishly_back.Payments.Providers.{ProviderSettings, Payment, get_payment_provider, create_payment}

-- The row of a request that was just made.
abbrev pub new_request : ℕ → String → ℕ → PaymentRequest
new_request wallet provider amount = record {
  wallet = wallet;
  provider = provider;
  amount = amount;
  status = TransactionStatus.pending;
  external_id = "";
  payment_url = "";
}

abbrev pub with_payment : Payment → PaymentRequest → PaymentRequest
with_payment p request = record request { external_id = p.external_id; payment_url = p.payment_url }

-- `DepositService.initiate_deposit`; `hex` is what `uuid4` gives.
unfoldable pub initiate_deposit :
    Env → ProviderSettings → String → ℕ → ℕ → String → Action (ℕ × Payment)
initiate_deposit env providers hex user_id amount provider_name = atomic (do
  raise_if (ltb amount env.settings.min_deposit_amount) Error.validation
  raise_if (ltb env.settings.max_deposit_amount amount) Error.validation
  get_wallet user_id
  request_id ← gets (λ w. w.next_id)
  modify_db (λ db. record db {
    next_id = db.next_id + 1;
    payment_requests =
        insert request_id (new_request user_id provider_name amount) db.payment_requests;
  })
  provider ← get_or_raise (λ _. get_payment_provider providers provider_name) Error.attribute
  let result =
      create_payment provider hex amount (str request_id) "Deposit to GIG Marketplace wallet" ""
  modify_db (λ db. record db {
    payment_requests = modify request_id (with_payment result) db.payment_requests;
  })
  pure (request_id, result))

-- `PaymentRequest.objects...get(id=..., status=PENDING)`
abbrev pub find_pending : ℕ → World → Option PaymentRequest
find_pending request_id w = elim (lookup request_id w.payment_requests) [
  | none ↦ none
  | some request ↦ if is_pending request.status then some request else none
]

abbrev pub settled : PaymentRequest → PaymentRequest
settled request = record request { status = TransactionStatus.completed }

-- `external_id or payment_request.external_id`
abbrev pub or_else : String → String → String
or_else a b = if a == "" then b else a

-- `DepositService.confirm_deposit`
unfoldable pub confirm_deposit : Env → ℕ → String → Action Transaction
confirm_deposit env request_id external_id = atomic (do
  request ← get_or_raise (find_pending request_id) Error.validation
  wallet ← get_wallet request.wallet
  tx ←
      deposit env request.wallet wallet request.amount request.provider
        (or_else external_id request.external_id)
  modify_db (λ db. record db { payment_requests = modify request_id settled db.payment_requests })
  pure tx)
