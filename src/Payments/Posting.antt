-- ===== src/Payments/Posting.antt =====
-- What a successful call of `WalletService` has done: the row that it changed, the transaction that
-- it wrote, and nothing else.
use ishly_back.Prelude.{
  ℕ, ◌+◌, ◌-◌, ◌≤◌, ◌≡◌, String, none, some, min, arith, Option-cases, inl, inr,
}
use ishly_back.Prelude.Int.{pos, ℤ-cases}
use ishly_back.Prelude.Table.{lookup, modify, lookup-modify}
use ishly_back.Core.Commission.{calculate_commission}
use ishly_back.Data.Payments.{Wallet, Transaction, TransactionType}
use ishly_back.Data.Jobs.{Job}
use ishly_back.World.{World, Env, ok, atomic}
use ishly_back.Payments.Ledger.{post, Records}
use ishly_back.Payments.Wallets.{
  deposit, deduct_for_job, refund_job, release_job_payment, save_wallet, create_transaction,
}

-- From `w` the row of `owner` was changed and the transaction `tx` written, for this amount.
pub record Posted (w : World) (owner : ℕ) (row : Wallet) (change : Wallet → Wallet)
    (kind : TransactionType) (amount : ℕ) (tx : Transaction) (w' : World) : Type 0 where
  pub found : lookup owner w.wallets ≡ some row
  pub records : Records owner row change tx
  pub typed : tx.transaction_type ≡ kind
  pub sized : tx.amount ≡ amount
  pub world : w' ≡ record w { db = post owner change tx w.db }

abbrev pub credited : Wallet → ℕ → Wallet → Wallet
credited wallet amount row = record row { balance = wallet.balance + amount }

pub deposit-Posted :
    (env : Env) (owner : ℕ) (wallet : Wallet) (amount : ℕ) (provider external_id : String)
    (w w' : World) (tx : Transaction)
    → lookup owner w.wallets ≡ some wallet
    → deposit env owner wallet amount provider external_id w ≡ (ok tx, w')
    → Posted w owner wallet (credited wallet amount) TransactionType.deposit amount tx w'
unfolding deposit save_wallet create_transaction atomic
deposit-Posted env owner wallet amount provider external_id w w' tx found h = ground arith

pub deposit_bounds :
    (env : Env) (owner : ℕ) (wallet : Wallet) (amount : ℕ) (provider external_id : String)
    (w w' : World) (tx : Transaction)
    → deposit env owner wallet amount provider external_id w ≡ (ok tx, w')
    → (env.settings.min_deposit_amount ≤ amount) × (amount ≤ env.settings.max_deposit_amount)
unfolding deposit save_wallet create_transaction atomic
deposit_bounds env owner wallet amount provider external_id w w' tx h = ground arith

abbrev pub escrowed_from : Wallet → ℕ → Wallet → Wallet
escrowed_from wallet price row = record row {
  balance = wallet.balance - price;
  held_balance = wallet.held_balance + price;
  total_spent = wallet.total_spent + price;
}

pub deduct_for_job-Posted :
    (owner : ℕ) (wallet : Wallet) (job_id : ℕ) (job : Job) (w w' : World) (tx : Transaction)
    → lookup owner w.wallets ≡ some wallet
    → deduct_for_job owner wallet job_id job w ≡ (ok tx, w')
    → (job.price ≤ wallet.balance)
      × Posted w owner wallet
          (escrowed_from wallet job.price)
          TransactionType.job_payment
          job.price
          tx
          w'
unfolding deduct_for_job save_wallet create_transaction atomic
deduct_for_job-Posted owner wallet job_id job w w' tx found h = ground arith

abbrev pub refunded : Wallet → ℕ → Wallet → Wallet
refunded wallet held row = record row {
  balance = wallet.balance + held;
  held_balance = wallet.held_balance - held;
  total_spent = wallet.total_spent - held;
}

pub refund_job-Posted :
    (job_id : ℕ) (job : Job) (w w' : World) (tx : Transaction)
    → refund_job job_id job w ≡ (ok tx, w')
    → (wallet : Wallet) × Posted w job.employer wallet
        (refunded wallet (min job.price wallet.held_balance))
        TransactionType.refund
        (min job.price wallet.held_balance)
        tx
        w'
unfolding refund_job save_wallet create_transaction atomic
refund_job-Posted job_id job w w' tx h = elim (Option-cases (lookup job.employer w.wallets)) [
  | inl missing ↦ ground arith
  | inr (wallet, found) ↦ (wallet, ground arith)
]

abbrev pub released : Wallet → ℕ → Wallet → Wallet
released wallet price row = record row { held_balance = wallet.held_balance - price }

abbrev pub paid : Wallet → ℕ → Wallet → Wallet
paid wallet amount row = record row {
  balance = wallet.balance + amount;
  total_earned = wallet.total_earned + amount;
}

-- The two steps of a release: the employer's held money goes, then the worker is paid.
pub record Released (env : Env) (job : Job) (worker : ℕ) (w : World) (ctx wtx : Transaction)
    (w' : World) : Type 0 where
  pub employer_row : Wallet
  pub worker_row : Wallet
  pub later_row : Wallet
  pub amount : ℕ
  pub between : World
  pub payout : (calculate_commission env job.price none).1 ≡ pos amount
  pub covered : job.price ≤ employer_row.held_balance
  pub same_balance : later_row.balance ≡ worker_row.balance
  pub first :
      Posted w job.employer employer_row
        (released employer_row job.price)
        TransactionType.commission
        (calculate_commission env job.price none).0
        ctx
        between
  pub second :
      Posted between worker later_row
        (paid worker_row amount)
        TransactionType.job_release
        amount
        wtx
        w'

-- The release of held money leaves every available balance as it was.
released_balance :
    (employer worker price : ℕ) (er wr lr : Wallet) (w : World)
    → lookup employer w.wallets ≡ some er
    → lookup worker w.wallets ≡ some wr
    → lookup worker (modify employer (released er price) w.wallets) ≡ some lr
    → lr.balance ≡ wr.balance
released_balance employer worker price er wr lr w fe fw fl =
    ground (arith, lookup-modify worker employer (released er price) w.wallets)

module _ (env : Env) (job_id : ℕ) (job : Job) (worker : ℕ) (w w' : World) (ctx wtx : Transaction)
    (h : release_job_payment env job_id job worker w ≡ (ok (ctx, wtx), w')) where
  release-with-later :
      (er wr lr : Wallet) (amount : ℕ)
      → lookup job.employer w.wallets ≡ some er
      → lookup worker w.wallets ≡ some wr
      → (calculate_commission env job.price none).1 ≡ pos amount
      → lookup worker (modify job.employer (released er job.price) w.wallets) ≡ some lr
      → Released env job worker w ctx wtx w'
  unfolding release_job_payment save_wallet create_transaction atomic
  release-with-later er wr lr amount fe fw pay fl = record {
    employer_row = er;
    worker_row = wr;
    later_row = lr;
    amount = amount;
    between = record w { db = post job.employer (released er job.price) ctx w.db };
    payout = pay;
    covered = ground arith;
    same_balance = released_balance job.employer worker job.price er wr lr w fe fw fl;
    first = ground arith;
    second = ground (arith, released_balance job.employer worker job.price er wr lr w fe fw fl);
  }

  pub release_job_payment-Released : Released env job worker w ctx wtx w'
  unfolding release_job_payment save_wallet create_transaction atomic
  release_job_payment-Released = elim (Option-cases (lookup job.employer w.wallets)) [
    | inl missing ↦ absurd (ground arith)
    | inr (er, fe) ↦ elim (Option-cases (lookup worker w.wallets)) [
      | inl missing ↦ absurd (ground arith)
      | inr (wr, fw) ↦ elim (ℤ-cases (calculate_commission env job.price none).1) [
        | inr (n, negative) ↦ absurd (ground arith)
        | inl (n, pay) ↦
            elim (Option-cases
              (lookup worker (modify job.employer (released er job.price) w.wallets))) [
                | inl missing ↦ absurd (ground arith)
                | inr (lr, fl) ↦ release-with-later er wr lr n fe fw pay fl
              ]
      ]
    ]
  ]
