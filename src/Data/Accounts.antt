-- ===== src/Data/Accounts.antt =====
-- apps/accounts/models.py. Avatar, bio and password columns are left out: no service reads them.
-- A rating is kept in hundredths, as the column `DecimalField(max_digits=3, decimal_places=2)` is.
use ishly_back.Prelude.{ℕ, Bool, true, false, String, ◌+◌, Option, ltb, leb}
use ishly_back.Core.Strip.{text_length}

-- The choices of the column are not enforced when a row is saved, its length is.
pub data UserRole : Type 0 where
  employer worker : UserRole
  other : String → UserRole

-- `max_length=10` of the column
abbrev pub fits_role : UserRole → Bool
fits_role UserRole.employer = true
fits_role UserRole.worker = true
fits_role (UserRole.other text) = leb (text_length text) 10

pub record User : Type 0 where
  pub phone_number : String
  pub role : UserRole
  pub name : String
  pub rating : ℕ
  pub rating_count : ℕ
  pub is_active : Bool
  pub is_staff : Bool
  pub is_blocked : Bool
  pub block_reason : String
  pub is_profile_complete : Bool
  pub last_seen : Option ℕ

abbrev pub is_employer : User → Bool
is_employer u = elim u.role [
  | UserRole.employer ↦ true
  | UserRole.worker ↦ false
  | UserRole.other _ ↦ false
]

abbrev pub is_worker : User → Bool
is_worker u = elim u.role [
  | UserRole.worker ↦ true
  | UserRole.employer ↦ false
  | UserRole.other _ ↦ false
]

-- `TelegramOTP`; times are in seconds
pub record TelegramOtp : Type 0 where
  pub phone_number : String
  pub request_id : String
  pub is_used : Bool
  pub created_at : ℕ

-- `TelegramOTP.is_expired`: more than 300 seconds old
abbrev pub is_expired : ℕ → TelegramOtp → Bool
is_expired now otp = ltb (otp.created_at + 300) now
