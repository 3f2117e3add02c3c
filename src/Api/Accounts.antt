-- ===== src/Api/Accounts.antt =====
-- apps/accounts/views.py and apps/accounts/serializers.py. Whether a text is a phone number is the
-- phone number library's to say. The views of tokens and logouts are the JWT library's, and a rating
-- has its service only.
pub mod Devices
use text.Mathlib.Text.{◌==◌ as str_eq}
use ishly_back.Prelude.{
  ℕ, ◌+◌, Bool, true, false, not, ◌&&◌, String, Option, none, some, List, [], ◌∷◌, ltb, leb, ◌==◌,
  if◌then◌else◌,
}
use ishly_back.Prelude.Table.{Table, lookup, insert, modify}
use ishly_back.Core.Errors.{Error}
use ishly_back.Core.Strip.{text_length, strip, is_digit}
use ishly_back.Data.Accounts.{User, UserRole}
use ishly_back.Data.Payments.{Wallet}
use ishly_back.Data.Notifications.{DeviceToken}
use ishly_back.World.{
  World, Action, Result, pure, gets, raise_if, modify_db, get_or_raise, ◌>>=◌, ◌>>◌,
}
use ishly_back.Accounts.Auth.{authenticate_or_create}
use ishly_back.Accounts.Otp.{Gateway, send_otp, verify_otp}
use ishly_back.Api.Access.{respond}

-- `SendOTPView.post`, with `PhoneNumberField` as a test
unfoldable pub send_otp_view : Gateway → (String → Bool) → String → World → ℕ × World
send_otp_view gateway is_phone phone w =
    if is_phone phone then respond 200 (send_otp gateway phone w) else (400, w)

-- `VerifyOTPSerializer.code`: 4 to 10 digits, without the white space around them
unfoldable pub is_code : String → Bool
is_code code = let n = text_length (strip code) in leb 4 n && leb n 10 && is_digit (strip code)

-- The role in the body of a first login; it is not validated.
abbrev pub role_of : Option String → UserRole
role_of none = UserRole.worker
role_of (some role) =
    if str_eq role "employer"
    then UserRole.employer
    else if str_eq role "worker"
    then UserRole.worker
    else UserRole.other role

-- the three services that `VerifyOTPView.post` calls, the tokens left out
unfoldable pub log_in : Gateway → String → String → UserRole → Action (ℕ × Bool)
log_in gateway phone code role = do verify_otp gateway phone code; authenticate_or_create phone role

-- `VerifyOTPView.post`
unfoldable pub verify_otp_view :
    Gateway → (String → Bool) → String → String → Option String → World → ℕ × World
verify_otp_view gateway is_phone phone code role w =
    if is_phone phone && is_code code
    then respond 200 (log_in gateway phone (strip code) (role_of role) w)
    else (400, w)

-- `UpdateProfileSerializer.validate_name`
unfoldable pub validate_name : String → Option String
validate_name value = if ltb (text_length (strip value)) 2 then none else some (strip value)

-- `UpdateProfileSerializer.update`, for the name
abbrev pub renamed : Option String → User → User
renamed none user = if str_eq user.name "" then user else record user { is_profile_complete = true }
renamed (some name) user =
    if str_eq name ""
    then record user { name = name }
    else record user { name = name; is_profile_complete = true }

abbrev pub save_profile : ℕ → Option String → World → ℕ × World
save_profile user_id name w =
    (200, record w { db = record w.db { users = modify user_id (renamed name) w.users } })

abbrev pub with_valid_name : ℕ → Option String → World → ℕ × World
with_valid_name user_id none w = (400, w)
with_valid_name user_id (some name) w = save_profile user_id (some name) w

-- `MyProfileView.patch`; the avatar and the biography are left out
unfoldable pub update_profile_view : Option String → ℕ → User → World → ℕ × World
update_profile_view none user_id user w = save_profile user_id none w
update_profile_view (some value) user_id user w = with_valid_name user_id (validate_name value) w

-- `UserPublicSerializer`: what others see of a user, with the whole phone number
pub record PublicProfile : Type 0 where
  pub id : ℕ
  pub name : String
  pub role : UserRole
  pub rating : ℕ
  pub rating_count : ℕ
  pub is_profile_complete : Bool
  pub phone_number : String

abbrev public_profile : ℕ → User → PublicProfile
public_profile user_id user = record {
  id = user_id;
  name = user.name;
  role = user.role;
  rating = user.rating;
  rating_count = user.rating_count;
  is_profile_complete = user.is_profile_complete;
  phone_number = user.phone_number;
}

-- `UserDetailView.get`: an inactive user is not found.
unfoldable pub user_detail_view : ℕ → World → Option PublicProfile
user_detail_view user_id w = elim (lookup user_id w.users) [
  | none ↦ none
  | some user ↦ if user.is_active then some (public_profile user_id user) else none
]

-- `UserProfileSerializer.get_balance`: 0 where there is no wallet
unfoldable pub get_balance_of : ℕ → World → ℕ
get_balance_of user_id w = elim (lookup user_id w.wallets) [
  | none ↦ 0
  | some wallet ↦ wallet.balance
]
