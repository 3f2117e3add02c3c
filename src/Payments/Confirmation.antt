-- ===== src/Payments/Confirmation.antt =====
-- `DepositService.confirm_deposit` of apps/payments/services.py: its effect, and a second call.
use ishly_back.Prelude.{ℕ, ◌≤◌, ◌≡◌, inl, inr, String, some, arith, Option-cases}
use ishly_back.Prelude.Table.{lookup, modify, lookup-modify}
use ishly_back.Core.Errors.{Error}
use ishly_back.Data.Payments.{
  Wallet, Transaction, TransactionType, PaymentRequest, TransactionStatus,
}
use ishly_back.World.{World, Env, ok, err, atomic}
use ishly_back.World.Atomic.{outcome, atomic_rollback}
use ishly_back.Payments.Wallets.{deposit, save_wallet, create_transaction}
use ishly_back.Payments.Posting.{Posted, credited, deposit-Posted, deposit_bounds}
use ishly_back.Payments.Deposits.{confirm_deposit, settled, or_else}

-- The requests of the database after a deposit, which writes none of them.
deposit-payment_requests :
    (env : Env) (owner : ℕ) (wallet : Wallet) (amount : ℕ) (provider external_id : String)
    (w : World)
    → ((deposit env owner wallet amount provider external_id w).1.payment_requests
        ≡ w.payment_requests)
      × ((deposit env owner wallet amount provider external_id w).1.jobs ≡ w.jobs)
unfolding deposit save_wallet create_transaction atomic
deposit-payment_requests env owner wallet amount provider external_id w =
    elim (Option-cases (lookup owner w.wallets)) [
      | inl missing ↦ (ground arith, ground arith)
      | inr (row, found) ↦ (ground arith, ground arith)
    ]

-- A pending request was credited to its wallet, and is settled.
pub record IsConfirmation (env : Env) (request_id : ℕ) (tx : Transaction) (w w' : World)
    : Type 0 where
  pub request : PaymentRequest
  pub wallet : Wallet
  pub after : World
  pub found : lookup request_id w.payment_requests ≡ some request
  pub pending : request.status ≡ TransactionStatus.pending
  pub posted :
      Posted w request.wallet wallet
        (credited wallet request.amount)
        TransactionType.deposit
        request.amount
        tx
        after
  pub in_bounds :
      (env.settings.min_deposit_amount ≤ request.amount)
      × (request.amount ≤ env.settings.max_deposit_amount)
  pub wallets : w'.wallets ≡ after.wallets
  pub transactions : w'.transactions ≡ after.transactions
  pub jobs : w'.jobs ≡ w.jobs
  pub keys : w'.next_id ≡ after.next_id
  pub requests : w'.payment_requests ≡ modify request_id settled w.payment_requests

module _ (env : Env) (request_id : ℕ) (external_id : String) (tx : Transaction) (w w' : World)
    (h : confirm_deposit env request_id external_id w ≡ (ok tx, w')) where
  confirmed :
      (request : PaymentRequest) (wallet : Wallet)
      → lookup request_id w.payment_requests ≡ some request
      → lookup request.wallet w.wallets ≡ some wallet
      → IsConfirmation env request_id tx w w'
  unfolding confirm_deposit atomic
  confirmed request wallet found owned =
      let ext = or_else external_id request.external_id in
      let frame =
        deposit-payment_requests env request.wallet wallet request.amount request.provider ext w in
      elim (outcome (deposit env request.wallet wallet request.amount request.provider ext w)) [
        | inr (e, after, raised) ↦ absurd (ground arith)
        | inl (t, after, done) ↦ record {
          request = request;
          wallet = wallet;
          after = after;
          found = found;
          pending = ground arith;
          posted =
              deposit-Posted env request.wallet wallet request.amount request.provider ext w after
                tx owned (ground arith);
          in_bounds =
              deposit_bounds env request.wallet wallet request.amount request.provider ext w after t
                done;
          wallets = ground arith;
          transactions = ground arith;
          jobs = ground arith;
          keys = ground arith;
          requests = ground arith;
        }
      ]

  -- A confirmation that returned found a pending request whose amount is within the limits, credited
  -- exactly that amount to its wallet with one transaction, and marked that request, and no other, as
  -- completed. Jobs are not touched, and no key is taken.
  pub confirm_deposit-IsConfirmation : IsConfirmation env request_id tx w w'
  unfolding confirm_deposit atomic
  confirm_deposit-IsConfirmation = elim (Option-cases (lookup request_id w.payment_requests)) [
    | inl missing ↦ absurd (ground arith)
    | inr (request, found) ↦ elim (Option-cases (lookup request.wallet w.wallets)) [
      | inl missing ↦ absurd (ground arith)
      | inr (wallet, owned) ↦ confirmed request wallet found owned
    ]
  ]

  -- A request that was confirmed cannot be confirmed again: the second call raises a validation
  -- error and changes nothing.
  pub confirm_deposit_once :
      (again : String) → confirm_deposit env request_id again w' ≡ (err Error.validation, w')
  unfolding confirm_deposit atomic
  confirm_deposit_once again =
      let c = confirm_deposit-IsConfirmation in
      ground
        (arith, c.found, c.requests, lookup-modify request_id request_id settled w.payment_requests)

pub confirm_deposit_rollback :
    (env : Env) (request_id : ℕ) (external_id : String) (w : World) {e : Error}
    → (confirm_deposit env request_id external_id w).0 ≡ err e
    → (confirm_deposit env request_id external_id w).1.db ≡ w.db
unfolding confirm_deposit
confirm_deposit_rollback env request_id external_id w h = atomic_rollback _ w h
