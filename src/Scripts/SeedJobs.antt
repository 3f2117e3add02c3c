-- ===== src/Scripts/SeedJobs.antt =====
-- `_seed_jobs`, `_reset` and `handle` of scripts/seed_data.py.
use Prim.Native.String.{◌++◌ as concat}
use ishly_back.Prelude.{
  ℕ, ◌+◌, ◌-◌, ◌*◌, Bool, true, false, not, ◌||◌, Option, none, some, List, [], ◌∷◌, ◌++◌, keep,
  ltb, if◌then◌else◌,
}
use ishly_back.Prelude.Table.{Table, lookup}
use ishly_back.Core.Errors.{Error}
use ishly_back.Core.Text.{str}
use ishly_back.Data.Accounts.{User}
use ishly_back.Data.Payments.{
  Wallet, Transaction, TransactionType, TransactionStatus, Direction, PaymentRequest,
}
use ishly_back.Data.Notifications.{Notification, DeviceToken}
use ishly_back.Data.Jobs.{Job, JobCategory, JobStatus, Double}
use ishly_back.World.{World, Env, Action, pure, raise_if, gets, modify_db, atomic, ◌>>=◌, ◌>>◌}
use ishly_back.Payments.Wallets.{get_wallet, save_wallet, create_transaction}
use ishly_back.Jobs.Service.{create_row}
use ishly_back.Scripts.SeedTables.{
  Template, first_template, other_templates, other_addresses, other_prices, other_statuses,
}
use ishly_back.Scripts.Seed.{
  choose, categories, find_slug, UserDraw, seed_categories, seed_users, seed_wallets,
}

-- What is drawn for a job: indices of choices, the place with its random shift, a number for the title,
-- and hours and minutes.
pub record JobDraw : Type 0 where
  pub template : ℕ
  pub category : ℕ
  pub employer : ℕ
  pub location : ℕ
  pub latitude : Double
  pub longitude : Double
  pub price : ℕ
  pub status : ℕ
  pub worker : ℕ
  pub suffix : ℕ
  pub scheduled_in : ℕ
  pub accepted_ago : ℕ
  pub started_ago : ℕ
  pub completed_ago : ℕ
  pub cancelled_ago : ℕ

unfoldable pub template_of : JobDraw → Template
template_of draw = choose draw.template first_template other_templates

unfoldable pub price_of : JobDraw → ℕ
price_of draw = choose draw.price 500_000 other_prices

unfoldable pub status_drawn : JobDraw → JobStatus
status_drawn draw = choose draw.status JobStatus.created other_statuses

abbrev key_or : ℕ → Option (ℕ × JobCategory) → ℕ
key_or k none = k
key_or k (some (found, _)) = found

-- `cat_by_slug.get(cat_slug, random.choice(categories))`
abbrev pub category_of : JobDraw → ℕ × JobCategory → Table JobCategory → ℕ
category_of draw first rest =
    key_or (choose draw.category first rest).0 (find_slug (template_of draw).slug (first ∷ rest))

-- The columns that depend on the state.
abbrev pub with_status : JobStatus → ℕ → JobDraw → ℕ → Job → Job
with_status JobStatus.created now draw worker job = job
with_status JobStatus.accepted now draw worker job = record job {
  worker = some worker;
  accepted_at = some (now - 3600 * draw.accepted_ago);
}
with_status JobStatus.in_progress now draw worker job = record job {
  worker = some worker;
  accepted_at = some (now - 3600 * draw.accepted_ago);
  started_at = some (now - 3600 * draw.started_ago);
}
with_status JobStatus.completed now draw worker job = record job {
  worker = some worker;
  accepted_at = some (now - 3600 * draw.accepted_ago);
  completed_at = some (now - 60 * draw.completed_ago);
}
with_status JobStatus.cancelled now draw worker job = record job {
  worker = none;
  accepted_at = some (now - 3600 * draw.accepted_ago);
  cancelled_at = some (now - 3600 * draw.cancelled_ago);
  cancel_reason = "Cancelled during seed";
}

unfoldable pub seeded_job : JobDraw → ℕ → ℕ → ℕ → ℕ → Job
seeded_job draw employer worker category now =
    with_status (status_drawn draw) now draw worker (record {
      fields = record {
        title = concat (template_of draw).title (concat " #" (str draw.suffix));
        description = (template_of draw).description;
        category = category;
        price = price_of draw;
        latitude = draw.latitude;
        longitude = draw.longitude;
        address = choose draw.location "Yunusabad, Tashkent" other_addresses;
        scheduled_time = some (now + 3600 * draw.scheduled_in);
      };
      employer = employer;
      worker = none;
      status = status_drawn draw;
      created_at = now;
      accepted_at = none;
      started_at = none;
      completed_at = none;
      cancelled_at = none;
      cancel_reason = "";
    })

-- The instance of the wallet, after the price was added twice if it could not be paid.
abbrev pub topped_up : Wallet → ℕ → Wallet
topped_up wallet price =
    if ltb wallet.balance price
    then record wallet { balance = wallet.balance + price * 2 }
    else wallet

abbrev pub top_up : ℕ → Wallet → ℕ → Action (Unit {0})
top_up user wallet price =
    if ltb wallet.balance price
    then save_wallet user (λ row. record row { balance = wallet.balance + price * 2 })
    else pure tt

abbrev pub seed_escrow : ℕ → Wallet → ℕ → ℕ → Transaction
seed_escrow user wallet price job_id = record {
  wallet = user;
  transaction_type = TransactionType.job_payment;
  direction = Direction.debit;
  amount = price;
  balance_before = wallet.balance - price + price;
  balance_after = wallet.balance - price;
  status = TransactionStatus.completed;
  job = some job_id;
  provider = "internal";
  external_id = "";
}

abbrev pub hold_price : ℕ → Wallet → ℕ → ℕ → Action (Unit {0})
hold_price user wallet price job_id = do
  save_wallet user (λ row. record row {
    balance = wallet.balance - price;
    held_balance = wallet.held_balance + price;
  })
  create_transaction (seed_escrow user wallet price job_id)
  pure tt

abbrev pub is_cancelled : JobStatus → Bool
is_cancelled JobStatus.cancelled = true
is_cancelled _ = false

-- The job with its escrow, for the wallet as it was read
abbrev pub seed_row : Env → JobDraw → ℕ → ℕ → ℕ → Wallet → Action (Unit {0})
seed_row env draw employer worker category wallet = do
  now ← gets (λ w. w.now)
  job_id ← create_row env (seeded_job draw employer worker category now)
  (if is_cancelled (status_drawn draw)
      then pure tt
      else hold_price employer (topped_up wallet (price_of draw)) (price_of draw) job_id)

-- One round of `_seed_jobs`, for an employer, a worker and a category that were chosen
unfoldable pub seed_job : Env → JobDraw → ℕ → ℕ → ℕ → Action (Unit {0})
seed_job env draw employer worker category = do
  wallet ← get_wallet employer
  top_up employer wallet (price_of draw)
  seed_row env draw employer worker category wallet

unfoldable pub seed_all_jobs :
    Env
    → List JobDraw
    → ℕ
    → List ℕ
    → ℕ
    → List ℕ
    → ℕ × JobCategory
    → Table JobCategory
    → Action (Unit {0})
seed_all_jobs env [] e es v vs c cs = pure tt
seed_all_jobs env (draw ∷ draws) e es v vs c cs = do
  seed_job env draw (choose draw.employer e es) (choose draw.worker v vs) (category_of draw c cs)
  seed_all_jobs env draws e es v vs c cs

-- `_seed_jobs`; without users or categories nothing is made.
abbrev pub seed_jobs : Env → List JobDraw → List ℕ → List ℕ → Table JobCategory → Action (Unit {0})
seed_jobs env draws (e ∷ es) (v ∷ vs) (c ∷ cs) = seed_all_jobs env draws e es v vs c cs
seed_jobs env draws _ _ _ = pure tt

abbrev is_staff_in : Option User → Bool
is_staff_in none = false
is_staff_in (some user) = user.is_staff

abbrev pub owned_by_staff : World → ℕ → Bool
owned_by_staff w user = is_staff_in (lookup user w.users)

abbrev pub staff_rows {ℓ} : {A : Type ℓ} → (ℕ → Bool) → Table A → Table A
staff_rows staff [] = []
staff_rows staff ((k, a) ∷ rows) =
    let rest = staff_rows staff rows in if staff k then (k, a) ∷ rest else rest

abbrev protects : (ℕ → Bool) → Table PaymentRequest → Bool
protects staff [] = false
protects staff ((_, request) ∷ rows) = not (staff request.wallet) || protects staff rows

abbrev is_own : (ℕ → Bool) → ℕ × Notification → Bool
is_own staff (_, n) = staff n.user

abbrev is_own_device : (ℕ → Bool) → ℕ × DeviceToken → Bool
is_own_device staff (_, d) = staff d.user

-- `_reset`, with what the deletions take along. A payment request protects its wallet: what was deleted
-- before stays deleted then.
unfoldable pub reset : Action (Unit {0})
reset = do
  modify_db (λ db. record db { jobs = []; rooms = []; messages = [] })
  modify_db (λ db. record db { transactions = [] })
  (λ w. raise_if (protects (owned_by_staff w) w.payment_requests) Error.integrity w)
  (λ w. modify_db (λ db. record db { wallets = staff_rows (owned_by_staff w) db.wallets }) w)
  (λ w.
      modify_db
        (λ db. record db {
          users = staff_rows (owned_by_staff w) db.users;
          notifications = keep (is_own (owned_by_staff w)) db.notifications;
          device_tokens = keep (is_own_device (owned_by_staff w)) db.device_tokens;
        })
        w)
  modify_db (λ db. record db { categories = [] })

-- What a run of the command draws: the amounts belong to the users that are made, in their order.
pub record Draws : Type 0 where
  pub employers : List UserDraw
  pub workers : List UserDraw
  pub amounts : ℕ → ℕ
  pub jobs : List JobDraw

abbrev pub with_amounts : (ℕ → ℕ) → List ℕ → List (ℕ × ℕ)
with_amounts amounts [] = []
with_amounts amounts (u ∷ us) = (u, amounts u) ∷ with_amounts amounts us

-- `Command.handle`
unfoldable pub seed : Env → Bool → Draws → Action (Unit {0})
seed env resets draws = do
  (if resets then reset else pure tt)
  atomic (do
    rows ← seed_categories categories
    users ← seed_users draws.employers draws.workers
    seed_wallets (with_amounts draws.amounts (users.0 ++ users.1))
    seed_jobs env draws.jobs users.0 users.1 rows)
