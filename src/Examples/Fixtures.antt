-- ===== src/Examples/Fixtures.antt =====
-- A small marketplace: an employer, a worker, a job in progress and a pending deposit.
use ishly_back.Prelude.{
  ltb, leb, ◌==◌, ℕ, ◌+◌, ◌-◌, ◌%◌, ◌^◌, ◌≤◌, ◌<◌, ◌≡◌, ◌*◌, ◌/◌, false, true, none, some, [], ◌∷◌,
  arith,
}
use native.Mathlib.Nat.{le_refl}
use ishly_back.Core.Floats.{TrueDivision}
use ishly_back.Core.Geo.{FloatOps}
use ishly_back.Payments.Providers.{ProviderSettings, Codecs}
use ishly_back.Api.Requests.{Site}
use ishly_back.Data.Accounts.{User, UserRole}
use ishly_back.Data.Payments.{Wallet, PaymentRequest, TransactionStatus}
use ishly_back.Data.Jobs.{Job, JobFields, JobStatus}
use ishly_back.World.{World, Env, base_settings}
use ishly_back.Market.Sound.{empty_db}
use ishly_back.Accounts.Otp.{Gateway}
use ishly_back.Accounts.Users.{Rounding}

pub above_exact : (n d : ℕ) → n * d * 2 ^ 53 ≤ n * d * (2 ^ 53 + 1)
above_exact n d = grind arith

pub below_exact : (n d : ℕ) → n * d * 2 ^ 53 ≤ n * d * 2 ^ 53 + n * d
below_exact n d = omega arith

pub exact_exact : (n d : ℕ) → n % d ≡ 0 → n ≡ n / d * d
exact_exact n d e = grind arith

pub floor-le-ceiling : (a b : ℕ) → 0 < b → a / b ≤ (a + (b - 1)) / b
floor-le-ceiling a b h = grind arith

-- a division that gives the fraction itself
abbrev pub exact_division : TrueDivision
exact_division = record {
  num = λ n d. n;
  den = λ n d. d;
  den_pos = λ n d h. h;
  above = λ n d h small most. above_exact n d;
  below = λ n d h small most. below_exact n d;
  exact = λ n d h small most e. exact_exact n d e;
}

abbrev pub env : Env
env = record {
  settings = base_settings;
  division = exact_division;
  locked = λ _. false;
  receiver_alive = true;
  locks_nullable = true;
}

-- rounds down
abbrev pub floor_rounding : Rounding
floor_rounding = record {
  round = λ a b. a / b;
  floor_le = λ a b h. le_refl (a / b);
  le_ceiling = λ a b h. floor-le-ceiling a b h;
}

abbrev pub gateway : Gateway
gateway = record {
  send = λ phone. some "req1";
  verify = λ rid code. some true;
  digest = λ phone. phone;
}

abbrev pub fields : JobFields
fields = record {
  title = "Move a sofa";
  description = "Third floor";
  category = 1;
  price = 1050;
  latitude = 0;
  longitude = 0;
  address = "Tashkent";
  scheduled_time = none;
}

abbrev pub user_of : UserRole → User
user_of role = record {
  phone_number = "+998901234567";
  role = role;
  name = "Aziz";
  rating = 450;
  rating_count = 2;
  is_active = true;
  is_staff = false;
  is_blocked = false;
  block_reason = "";
  is_profile_complete = true;
  last_seen = none;
}

-- user 1 posted the job, and user 2 takes it
abbrev pub job_with : JobStatus → Job
job_with status = record {
  fields = fields;
  employer = 1;
  worker = some 2;
  status = status;
  created_at = 10;
  accepted_at = some 20;
  started_at = none;
  completed_at = none;
  cancelled_at = none;
  cancel_reason = "";
}

abbrev pub created_job : Job
created_job = record (job_with JobStatus.created) { worker = none; accepted_at = none }

abbrev pub employer_wallet : Wallet
employer_wallet = record {
  balance = 5000;
  held_balance = 1050;
  total_earned = 0;
  total_spent = 1050;
}

abbrev pub worker_wallet : Wallet
worker_wallet = record { balance = 0; held_balance = 0; total_earned = 0; total_spent = 0 }

abbrev pub request : PaymentRequest
request = record {
  wallet = 1;
  provider = "click";
  amount = 20000;
  status = TransactionStatus.pending;
  external_id = "6";
  payment_url = "";
}

abbrev pub world_with : Job → World
world_with job = record {
  db = record empty_db {
    next_id = 7;
    users = (1, user_of UserRole.employer) ∷ (2, user_of UserRole.worker) ∷ [];
    wallets = (1, employer_wallet) ∷ (2, worker_wallet) ∷ [];
    jobs = (5, job) ∷ [];
    payment_requests = (6, request) ∷ [];
  };
  cache = λ _. none;
  effects = [];
  now = 100;
}

abbrev pub empty_world : World
empty_world = record { db = empty_db; cache = λ _. none; effects = []; now = 100 }

pub ltb_asym : (x y : ℕ) → ltb x y ≡ true → ltb y x ≡ false
ltb_asym x y h = ground arith

-- whole numbers, on a flat earth
abbrev pub floats : FloatOps
floats = record {
  of_nat = λ n. n;
  add = λ x y. x + y;
  sub = λ x y. x - y;
  mul = λ x y. x * y;
  div = λ x y. x / y;
  neg = λ x. 0;
  square = λ x. x * x;
  sqrt = λ x. x;
  sin = λ x. x;
  cos = λ x. 1;
  atan2 = λ x y. x;
  radians = λ x. x;
  round = λ x. x;
  le = leb;
  lt = ltb;
  is_zero = λ x. x == 0;
  lt_asym = ltb_asym;
}

abbrev pub no_providers : ProviderSettings
no_providers = record { payme_settings = none; click_settings = none }

abbrev pub codecs : Codecs
codecs = record { b64decode = λ s. some s; md5_hex = λ s. s }

abbrev pub site : Site
site = record {
  env = env;
  gateway = gateway;
  providers = no_providers;
  codecs = codecs;
  key_of = λ s. some 6;
  is_phone = λ s. true;
  floats = floats;
  hex = "5f2a";
}
