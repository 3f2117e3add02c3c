-- ===== src/Payments/Ledger.antt =====
-- The ledger of a wallet, as the list of all transactions, the newest first, tells it.
use ishly_back.Prelude.{
  ℕ, ◌+◌, ◌≡◌, ◌≢◌, Option, none, some, List, [], ◌∷◌, arith, ◌==◌, if◌then◌else◌,
}
use ishly_back.Prelude.Table.{
  lookup, modify, total, lookup-modify_self, lookup-modify_ne, total-modify,
}
use ishly_back.Data.Payments.{Wallet, Transaction, TransactionType}
use ishly_back.World.{Db}

-- The available balance of a user, and what is held; nothing where there is no wallet.
abbrev pub balance_in : Option Wallet → ℕ
balance_in none = 0
balance_in (some row) = row.balance

abbrev pub held_in : Option Wallet → ℕ
held_in none = 0
held_in (some row) = row.held_balance

-- The balance after the newest transaction of a wallet.
abbrev pub last_balance : ℕ → List Transaction → ℕ
last_balance u [] = 0
last_balance u (tx ∷ txs) = if tx.wallet == u then tx.balance_after else last_balance u txs

-- What a transaction does to the available balance. A commission is taken from held money.
abbrev pub IsPosted : TransactionType → Transaction → Type 0
IsPosted TransactionType.deposit tx = tx.balance_after ≡ tx.balance_before + tx.amount
IsPosted TransactionType.job_payment tx = tx.balance_before ≡ tx.balance_after + tx.amount
IsPosted TransactionType.job_release tx = tx.balance_after ≡ tx.balance_before + tx.amount
IsPosted TransactionType.commission tx = tx.balance_after ≡ tx.balance_before
IsPosted TransactionType.refund tx = tx.balance_after ≡ tx.balance_before + tx.amount
IsPosted TransactionType.withdrawal tx = ⊥

-- Every transaction starts from the balance that the one before it left in that wallet.
abbrev pub IsChained : List Transaction → Type 0
IsChained [] = Unit
IsChained (tx ∷ txs) =
    (tx.balance_before ≡ last_balance tx.wallet txs)
    × IsPosted tx.transaction_type tx
    × IsChained txs

-- The balance of every wallet is the one that its newest transaction records.
pub record IsAudited (db : Db) : Type 0 where
  pub balances : (u : ℕ) → balance_in (lookup u db.wallets) ≡ last_balance u db.transactions
  pub chained : IsChained db.transactions

-- Money in a wallet, available or held.
abbrev pub funds : Wallet → ℕ
funds row = row.balance + row.held_balance

-- What came in from outside, and what the platform took.
abbrev pub deposited : List Transaction → ℕ
deposited [] = 0
deposited (tx ∷ txs) =
    elim tx.transaction_type [ TransactionType.deposit ↦ tx.amount | _ ↦ 0 ] + deposited txs

abbrev pub commissions : List Transaction → ℕ
commissions [] = 0
commissions (tx ∷ txs) =
    elim tx.transaction_type [ TransactionType.commission ↦ tx.amount | _ ↦ 0 ] + commissions txs

-- No money is made or lost: what users deposited is in the wallets or was taken as commission.
abbrev pub IsConserved : Db → Type 0
IsConserved db = total funds db.wallets + commissions db.transactions ≡ deposited db.transactions

-- One transaction with its change of one wallet.
abbrev pub post : ℕ → (Wallet → Wallet) → Transaction → Db → Db
post owner change tx db = record db {
  wallets = modify owner change db.wallets;
  transactions = tx ∷ db.transactions;
}

-- The transaction records the change of the row that it belongs to.
pub record Records (owner : ℕ) (row : Wallet) (change : Wallet → Wallet) (tx : Transaction)
    : Type 0 where
  pub own : tx.wallet ≡ owner
  pub before : tx.balance_before ≡ row.balance
  pub after : tx.balance_after ≡ (change row).balance
  pub posted : IsPosted tx.transaction_type tx

module _ (owner : ℕ) (row : Wallet) (change : Wallet → Wallet) (tx : Transaction) (db : Db)
    (found : lookup owner db.wallets ≡ some row) where
  balance-post_self :
      Records owner row change tx
      → balance_in (lookup owner (modify owner change db.wallets)) ≡ tx.balance_after
  balance-post_self r = ground (arith, lookup-modify_self owner change db.wallets found)

  balance-post_ne :
      (u : ℕ)
      → u ≢ owner
      → balance_in (lookup u (modify owner change db.wallets)) ≡ balance_in (lookup u db.wallets)
  balance-post_ne u ne = ground (arith, lookup-modify_ne u owner change db.wallets ne)

  pub post-IsAudited :
      Records owner row change tx → IsAudited db → IsAudited (post owner change tx db)
  post-IsAudited r a = record {
    balances = λ u. ground (arith, balance-post_self r, balance-post_ne u, a.balances u);
    chained = ground (arith, a.balances owner, a.chained);
  }

  -- The money in all wallets moves by what the change does to this one.
  pub total-post :
      total funds (modify owner change db.wallets) + funds row
      ≡ total funds db.wallets + funds (change row)
  total-post = total-modify funds owner change db.wallets found

  pub held-post_self :
      held_in (lookup owner (modify owner change db.wallets)) ≡ (change row).held_balance
  held-post_self = ground (arith, lookup-modify_self owner change db.wallets found)

  pub held-post_ne :
      (u : ℕ)
      → u ≢ owner
      → held_in (lookup u (modify owner change db.wallets)) ≡ held_in (lookup u db.wallets)
  held-post_ne u ne = ground (arith, lookup-modify_ne u owner change db.wallets ne)
