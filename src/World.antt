-- ===== src/World.antt =====
-- What a service call sees and changes: the database, and what leaves it. A service method is an
-- action that returns or raises; `transaction.atomic` undoes the database part of one that raises.
pub mod Atomic
use ishly_back.Prelude.{ℕ, Bool, String, Option, none, some, List, ◌∷◌, if◌then◌else◌}
use ishly_back.Prelude.Table.{Table}
use ishly_back.Core.Errors.{Error}
use ishly_back.Core.Floats.{TrueDivision}
use ishly_back.Data.Accounts.{User, TelegramOtp}
use ishly_back.Data.Payments.{Wallet, Transaction, PaymentRequest}
use ishly_back.Data.Jobs.{Job, JobCategory}
use ishly_back.Data.Notifications.{Notification, DeviceToken}
use ishly_back.Data.Chat.{ChatRoom, Message}

-- The tables. New keys come from `next_id`; transactions and messages are held newest first.
pub record Db : Type 0 where
  pub next_id : ℕ
  pub users : Table User
  pub wallets : Table Wallet
  pub transactions : List Transaction
  pub payment_requests : Table PaymentRequest
  pub jobs : Table Job
  pub rooms : Table ChatRoom
  pub messages : List Message
  pub telegram_otps : Table TelegramOtp
  pub categories : Table JobCategory
  pub notifications : Table Notification
  pub device_tokens : Table DeviceToken

-- What a call sends out: Celery tasks, the flush of the job list cache, and revocations at the
-- Telegram gateway, and push messages to devices with their title and body. No rollback undoes it.
pub data Effect : Type 0 where
  notify_new_job notify_job_accepted notify_job_completed : ℕ → Effect
  invalidate_job_cache : Effect
  revoke_otp : String → Effect
  push : List String → String → String → Effect

-- A counter in the cache, and the time at which it goes.
pub record Counter : Type 0 where
  pub count : ℕ
  pub expires_at : ℕ

pub record World : Type 0 where
  pub db : Db
  pub open db use *
  pub cache : String → Option Counter
  pub effects : List Effect
  -- `timezone.now()`
  pub now : ℕ

-- The values of config/settings/base.py that the services read; each may be set from outside.
pub record Settings : Type 0 where
  pub min_deposit_amount : ℕ
  pub max_deposit_amount : ℕ
  pub platform_commission_percent : ℕ
  pub default_search_radius_km : ℕ

abbrev pub base_settings : Settings
base_settings = record {
  min_deposit_amount = 10000;
  max_deposit_amount = 10_000_000;
  platform_commission_percent = 10;
  default_search_radius_km = 50;
}

-- What surrounds a call: the settings, the division of doubles, which job rows another transaction
-- has locked, whether the receiver of `post_save` on jobs is still referenced, and whether the database
-- can lock a joined row that may be missing. PostgreSQL, which config/settings/base.py names, cannot.
pub record Env : Type 0 where
  pub settings : Settings
  pub division : TrueDivision
  pub locked : ℕ → Bool
  pub receiver_alive : Bool
  pub locks_nullable : Bool

pub data Result (A : Type 0) : Type 0 where
  ok : A → Result A
  err : Error → Result A

abbrev pub Action : Type 0 → Type 0
Action A = World → Result A × World

module _ {A : Type 0} where
  abbrev pub pure : A → Action A
  pure a w = (ok a, w)

  abbrev pub raise : Error → Action A
  raise e w = (err e, w)

  -- `objects.get(...)`, with the exception that stands for a row that is not there
  abbrev pub get_or_raise : (World → Option A) → Error → Action A
  get_or_raise f e w = elim (f w) [ none ↦ (err e, w) | some a ↦ (ok a, w) ]

  abbrev pub gets : (World → A) → Action A
  gets f w = (ok (f w), w)

  -- `@transaction.atomic`
  unfoldable pub atomic : Action A → Action A
  atomic m w =
      let (r, w') = m w in elim r [ ok a ↦ (ok a, w') | err e ↦ (err e, record w' { db = w.db }) ]

abbrev pub raise_if : Bool → Error → Action (Unit {0})
raise_if b e w = (if b then err e else ok tt, w)

abbrev pub modify_db : (Db → Db) → Action (Unit {0})
modify_db f w = (ok tt, record w { db = f w.db })

abbrev pub emit : Effect → Action (Unit {0})
emit x w = (ok tt, record w { effects = x ∷ w.effects })

infixl 5 ◌>>=◌ ◌>>◌
abbrev pub ◌>>=◌ : {A B : Type 0} → Action A → (A → Action B) → Action B
◌>>=◌ m f w = let (r, w') = m w in elim r [ ok a ↦ f a w' | err e ↦ (err e, w') ]

abbrev pub ◌>>◌ : {A B : Type 0} → Action A → Action B → Action B
m >> k = m >>= λ _. k
