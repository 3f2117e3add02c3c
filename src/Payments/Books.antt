-- ===== src/Payments/Books.antt =====
-- The ledger across the postings of `WalletService` of apps/payments/services.py.
use ishly_back.Prelude.{ℕ, ◌+◌, ◌≤◌, ◌≡◌, sym, none, min, arith}
use mathlib.Core.Path.{subst}
use ishly_back.Core.Commission.{calculate_commission}
use ishly_back.Data.Payments.{Wallet, Transaction, TransactionType}
use ishly_back.Data.Jobs.{Job}
use ishly_back.World.{World, Env}
use ishly_back.Payments.Ledger.{IsAudited, IsConserved, post-IsAudited, total-post}
use ishly_back.Payments.Posting.{
  Posted, Released, credited, escrowed_from, refunded, released, paid,
}

pub Posted-IsAudited :
    {w : World} {owner : ℕ} {row : Wallet} {change : Wallet → Wallet} {kind : TransactionType}
    {amount : ℕ} {tx : Transaction} {w' : World}
    → Posted w owner row change kind amount tx w'
    → IsAudited w.db
    → IsAudited w'.db
Posted-IsAudited {w} {owner} {row} {change} {tx = tx} p a =
    subst (λ (v : World). IsAudited v.db) (sym p.world)
      (post-IsAudited owner row change tx w.db p.found p.records a)

module _ (w w' : World) (owner : ℕ) (row : Wallet) (tx : Transaction) where
  pub credited-IsConserved :
      (amount : ℕ)
      → Posted w owner row (credited row amount) TransactionType.deposit amount tx w'
      → IsConserved w.db
      → IsConserved w'.db
  credited-IsConserved amount p c =
      ground (
        arith,
        p.world,
        p.typed,
        p.sized,
        total-post owner row (credited row amount) tx w.db p.found,
      )

  pub escrowed-IsConserved :
      (price : ℕ)
      → price ≤ row.balance
      → Posted w owner row (escrowed_from row price) TransactionType.job_payment price tx w'
      → IsConserved w.db
      → IsConserved w'.db
  escrowed-IsConserved price le p c = ground (
    arith,
    p.world,
    p.typed,
    p.sized,
    total-post owner row (escrowed_from row price) tx w.db p.found,
  )

  pub refunded-IsConserved :
      (price : ℕ)
      → Posted w owner row
          (refunded row (min price row.held_balance))
          TransactionType.refund
          (min price row.held_balance)
          tx
          w'
      → IsConserved w.db
      → IsConserved w'.db
  refunded-IsConserved price p c = ground (
    arith,
    p.world,
    p.typed,
    p.sized,
    total-post owner row (refunded row (min price row.held_balance)) tx w.db p.found,
  )

-- A release takes the price out of the held money and splits it into commission and payout.
pub Released-IsConserved :
    (env : Env) (job : Job) (worker : ℕ) (w w' : World) (ctx wtx : Transaction)
    (r : Released env job worker w ctx wtx w')
    → (calculate_commission env job.price none).0 + r.amount ≡ job.price
    → IsConserved w.db
    → IsConserved w'.db
Released-IsConserved env job worker w w' ctx wtx r sum c = ground (
  arith,
  sum,
  r.covered,
  r.same_balance,
  r.first.world,
  r.first.typed,
  r.first.sized,
  r.second.world,
  r.second.typed,
  r.second.sized,
  total-post job.employer r.employer_row (released r.employer_row job.price) ctx w.db r.first.found,
  total-post worker r.later_row (paid r.worker_row r.amount) wtx r.between.db r.second.found,
)

pub Released-IsAudited :
    {env : Env} {job : Job} {worker : ℕ} {w w' : World} {ctx wtx : Transaction}
    → Released env job worker w ctx wtx w'
    → IsAudited w.db
    → IsAudited w'.db
Released-IsAudited r a = Posted-IsAudited r.second (Posted-IsAudited r.first a)
