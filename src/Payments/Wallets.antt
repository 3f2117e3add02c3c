-- ===== src/Payments/Wallets.antt =====
-- `WalletService` of apps/payments/services.py. A wallet instance is its owner and the row that was
-- read; a save writes the named columns of that instance to the row.
use ishly_back.Prelude.{ℕ, ◌+◌, ◌-◌, String, Option, none, some, ◌∷◌, min, ltb, if◌then◌else◌}
use ishly_back.Prelude.Int.{ℤ, pos, negsuc}
use ishly_back.Prelude.Table.{lookup, modify}
use ishly_back.Core.Errors.{Error}
use ishly_back.Core.Commission.{calculate_commission}
use ishly_back.Data.Payments.{
  Wallet, Transaction, TransactionType, Direction, TransactionStatus, fits,
}
use ishly_back.Data.Jobs.{Job}
use ishly_back.World.{
  World, Env, Action, pure, raise, raise_if, get_or_raise, modify_db, atomic, ◌>>=◌, ◌>>◌,
}

-- `Wallet.objects.select_for_update().get(user=...)`
abbrev pub get_wallet : ℕ → Action Wallet
get_wallet user = get_or_raise (λ w. lookup user w.wallets) Error.does_not_exist

abbrev save_row : ℕ → (Wallet → Wallet) → Option Wallet → Action (Unit {0})
save_row owner columns none = raise Error.integrity
save_row owner columns (some row) =
    if fits (columns row)
    then modify_db (λ db. record db { wallets = modify owner columns db.wallets })
    else raise Error.integrity

-- `wallet.save(update_fields=...)`, which the CHECK of a column may refuse
unfoldable pub save_wallet : ℕ → (Wallet → Wallet) → Action (Unit {0})
save_wallet owner columns w = save_row owner columns (lookup owner w.wallets) w

-- `Transaction.objects.create`. Its amounts are at most the balances just saved.
unfoldable pub create_transaction : Transaction → Action Transaction
create_transaction tx = do
  modify_db (λ db. record db { transactions = tx ∷ db.transactions })
  pure tx

-- A negative amount, which no positive column takes.
abbrev pub credit_amount : ℤ → Action ℕ
credit_amount (pos n) = pure n
credit_amount (negsuc n) = raise Error.integrity

-- `WalletService.deposit`
unfoldable pub deposit : Env → ℕ → Wallet → ℕ → String → String → Action Transaction
deposit env owner wallet amount provider external_id = atomic (do
  raise_if (ltb amount env.settings.min_deposit_amount) Error.validation
  raise_if (ltb env.settings.max_deposit_amount amount) Error.validation
  save_wallet owner (λ row. record row { balance = wallet.balance + amount })
  create_transaction (record {
    wallet = owner;
    transaction_type = TransactionType.deposit;
    direction = Direction.credit;
    amount = amount;
    balance_before = wallet.balance;
    balance_after = wallet.balance + amount;
    status = TransactionStatus.completed;
    job = none;
    provider = provider;
    external_id = external_id;
  }))

-- `WalletService.deduct_for_job`
unfoldable pub deduct_for_job : ℕ → Wallet → ℕ → Job → Action Transaction
deduct_for_job owner wallet job_id job = atomic (do
  raise_if (ltb wallet.balance job.price) Error.insufficient_balance
  save_wallet owner (λ row. record row {
    balance = wallet.balance - job.price;
    held_balance = wallet.held_balance + job.price;
    total_spent = wallet.total_spent + job.price;
  })
  create_transaction (record {
    wallet = owner;
    transaction_type = TransactionType.job_payment;
    direction = Direction.debit;
    amount = job.price;
    balance_before = wallet.balance;
    balance_after = wallet.balance - job.price;
    status = TransactionStatus.completed;
    job = some job_id;
    provider = "internal";
    external_id = "";
  }))

-- `WalletService.release_job_payment`, for a job whose worker is `worker`. The database refuses a
-- held balance below zero.
unfoldable pub release_job_payment : Env → ℕ → Job → ℕ → Action (Transaction × Transaction)
release_job_payment env job_id job worker = atomic (do
  let amounts = calculate_commission env job.price none
  employer_wallet ← get_wallet job.employer
  worker_wallet ← get_wallet worker
  raise_if (ltb employer_wallet.held_balance job.price) Error.integrity
  save_wallet job.employer
      (λ row. record row { held_balance = employer_wallet.held_balance - job.price })
  commission_tx ← create_transaction (record {
    wallet = job.employer;
    transaction_type = TransactionType.commission;
    direction = Direction.debit;
    amount = amounts.0;
    balance_before = employer_wallet.balance;
    balance_after = employer_wallet.balance;
    status = TransactionStatus.completed;
    job = some job_id;
    provider = "internal";
    external_id = "";
  })
  worker_amount ← credit_amount amounts.1
  save_wallet worker (λ row. record row {
    balance = worker_wallet.balance + worker_amount;
    total_earned = worker_wallet.total_earned + worker_amount;
  })
  worker_tx ← create_transaction (record {
    wallet = worker;
    transaction_type = TransactionType.job_release;
    direction = Direction.credit;
    amount = worker_amount;
    balance_before = worker_wallet.balance;
    balance_after = worker_wallet.balance + worker_amount;
    status = TransactionStatus.completed;
    job = some job_id;
    provider = "internal";
    external_id = "";
  })
  pure (commission_tx, worker_tx))

-- `WalletService.refund_job`. `total_spent` stops at 0 as `max(0, ...)` does.
unfoldable pub refund_job : ℕ → Job → Action Transaction
refund_job job_id job = atomic (do
  employer_wallet ← get_wallet job.employer
  let held = min job.price employer_wallet.held_balance
  save_wallet job.employer (λ row. record row {
    balance = employer_wallet.balance + held;
    held_balance = employer_wallet.held_balance - held;
    total_spent = employer_wallet.total_spent - held;
  })
  create_transaction (record {
    wallet = job.employer;
    transaction_type = TransactionType.refund;
    direction = Direction.credit;
    amount = held;
    balance_before = employer_wallet.balance;
    balance_after = employer_wallet.balance + held;
    status = TransactionStatus.completed;
    job = some job_id;
    provider = "internal";
    external_id = "";
  }))

-- `WalletService.get_balance`. Where the user has no wallet the last two keys are absent.
pub record Summary : Type 0 where
  pub balance : ℕ
  pub held_balance : ℕ
  pub total_earned : Option ℕ
  pub total_spent : Option ℕ

unfoldable pub get_balance : ℕ → World → Summary
get_balance user w = elim (lookup user w.wallets) [
  | none ↦ record { balance = 0; held_balance = 0; total_earned = none; total_spent = none }
  | some row ↦ record {
    balance = row.balance;
    held_balance = row.held_balance;
    total_earned = some row.total_earned;
    total_spent = some row.total_spent;
  }
]
