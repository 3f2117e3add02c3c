-- ===== src/Data/Payments.antt =====
-- apps/payments/models.py. Amounts are whole tiyin; the positive columns are natural numbers whose
-- CHECK is enforced when a row is saved. A wallet is known by its owner, since `user` is one-to-one.
-- `description` and `meta` are for display, and are left out.
use ishly_back.Prelude.{ℕ, Option, Bool, String, ◌-◌, ◌^◌, ◌&&◌, leb}

pub data TransactionType : Type 0 where
  deposit job_payment job_release commission refund withdrawal : TransactionType

pub data Direction : Type 0 where
  credit debit : Direction

pub data TransactionStatus : Type 0 where
  pending completed failed reversed : TransactionStatus

pub record Wallet : Type 0 where
  pub balance : ℕ
  pub held_balance : ℕ
  pub total_earned : ℕ
  pub total_spent : ℕ

-- A new row has the defaults.
abbrev pub empty_wallet : Wallet
empty_wallet = record { balance = 0; held_balance = 0; total_earned = 0; total_spent = 0 }

-- the largest value of a `PositiveBigIntegerField`
abbrev pub max_big : ℕ
max_big = 2 ^ 63 - 1

unfoldable pub fits : Wallet → Bool
fits r =
    leb r.balance max_big
    && leb r.held_balance max_big
    && leb r.total_earned max_big
    && leb r.total_spent max_big

pub record Transaction : Type 0 where
  pub wallet : ℕ
  pub transaction_type : TransactionType
  pub direction : Direction
  pub amount : ℕ
  pub balance_before : ℕ
  pub balance_after : ℕ
  pub status : TransactionStatus
  pub job : Option ℕ
  pub provider : String
  pub external_id : String

pub record PaymentRequest : Type 0 where
  pub wallet : ℕ
  pub provider : String
  pub amount : ℕ
  pub status : TransactionStatus
  pub external_id : String
  pub payment_url : String

abbrev pub is_pending : TransactionStatus → Bool
is_pending TransactionStatus.pending = Bool.true
is_pending TransactionStatus.completed = Bool.false
is_pending TransactionStatus.failed = Bool.false
is_pending TransactionStatus.reversed = Bool.false
