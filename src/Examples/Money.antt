-- ===== src/Examples/Money.antt =====
-- Runs of the payment services and of a whole day of calls.
use ishly_back.Payments.Wallets.{create_transaction, deposit, save_wallet}
use ishly_back.Prelude.{◌+◌, ◌≡◌, ◌≤◌, refl, none, List, [], ◌∷◌, arith, inl, some}
use ishly_back.Prelude.Int.{pos}
use ishly_back.Core.Errors.{Error}
use ishly_back.Core.Commission.{calculate_commission, calculate_commission_exact}
use ishly_back.Data.Accounts.{UserRole}
use ishly_back.Data.Payments.{fits, Transaction, TransactionType, Direction, TransactionStatus}
use ishly_back.World.{atomic, Env, err}
use ishly_back.Payments.Deposits.{confirm_deposit}
use ishly_back.Payments.Confirmation.{
  IsConfirmation, confirm_deposit_once, confirm_deposit-IsConfirmation,
}
use ishly_back.Market.Sound.{IsSound, empty_db-IsSound}
use ishly_back.Market.Calls.{Call, serve_all, serve_all-IsSound}
use ishly_back.Examples.Fixtures.{env, user_of, fields, created_job, world_with, empty_world}

abbrev day : List (Env × Call)
day =
    (env, Call.login "+998901234567" UserRole.employer)
    ∷ (env, Call.login "+998907654321" UserRole.worker)
    ∷ (env, Call.create 1 (user_of UserRole.employer) fields)
    ∷ (env, Call.accept 3 2 (user_of UserRole.worker))
    ∷ (env, Call.start 3 2)
    ∷ (env, Call.complete 3 1 (user_of UserRole.employer))
    ∷ []

serve_all-IsSound_example : IsSound (serve_all day empty_world).db
serve_all-IsSound_example = serve_all-IsSound day empty_world empty_db-IsSound

calculate_commission_exact_example :
    (calculate_commission env 1059 (some 7) ≡ (74, pos 985)) × (74 ≤ 1059) × (74 + 985 ≡ 1059)
calculate_commission_exact_example =
    calculate_commission_exact env 1059 (some 7) 7 (inl (refl, omega arith)) (omega arith)
      (omega arith)

abbrev receipt : Transaction
receipt = record {
  wallet = 1;
  transaction_type = TransactionType.deposit;
  direction = Direction.credit;
  amount = 20000;
  balance_before = 5000;
  balance_after = 25000;
  status = TransactionStatus.completed;
  job = none;
  provider = "click";
  external_id = "6";
}

confirm_deposit_once_example :
    confirm_deposit env 6 "x" (confirm_deposit env 6 "" (world_with created_job)).1
    ≡ (err Error.validation, (confirm_deposit env 6 "" (world_with created_job)).1)
unfolding confirm_deposit atomic deposit save_wallet fits create_transaction
confirm_deposit_once_example =
    confirm_deposit_once env 6 "" receipt (world_with created_job)
      (confirm_deposit env 6 "" (world_with created_job)).1 refl "x"

confirm_deposit-IsConfirmation_example :
    IsConfirmation env 6 receipt
      (world_with created_job)
      (confirm_deposit env 6 "" (world_with created_job)).1
unfolding confirm_deposit atomic deposit save_wallet fits create_transaction
confirm_deposit-IsConfirmation_example =
    confirm_deposit-IsConfirmation env 6 "" receipt (world_with created_job)
      (confirm_deposit env 6 "" (world_with created_job)).1 refl
