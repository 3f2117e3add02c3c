-- ===== src/Accounts/Tokens.antt =====
-- `AuthService.generate_tokens` and `logout` of apps/accounts/services.py, and `UserManager` of
-- apps/accounts/models.py. The tokens, their texts and the blacklist are the JWT library's: a parameter
-- over a state of its own.
use text.Mathlib.Text.{◌==◌ as str_eq}
use ishly_back.Prelude.{
  ℕ, ◌≡◌, ◌⊎◌, refl, inl, inr, Bool, true, false, not, String, Option, none, some, Option-cases,
  if◌then◌else◌, arith,
}
use ishly_back.Core.Errors.{Error}
use ishly_back.Data.Accounts.{User, UserRole}
use ishly_back.World.{Result, ok, err}
use ishly_back.Accounts.Auth.{new_user}

-- A refresh token: its user, and the claims that are added to it.
pub record RefreshToken : Type 0 where
  pub id : String
  pub user_id : ℕ
  pub role : Option UserRole
  pub phone_number : Option String

-- `RefreshToken` of the library. Reading and blacklisting raise on a token that is not good.
pub record Jwt (S : Type 0) : Type 0 where
  pub for_user : ℕ → S → RefreshToken × S
  pub text_of : RefreshToken → String
  pub access_text_of : RefreshToken → String
  pub read : String → S → Option RefreshToken
  pub blacklist : RefreshToken → S → Option S

pub record Tokens : Type 0 where
  pub access : String
  pub refresh : String

module _ {S : Type 0} (jwt : Jwt S) where
  abbrev pub with_claims : User → RefreshToken → RefreshToken
  with_claims user token = record token {
    role = some user.role;
    phone_number = some user.phone_number;
  }

  -- `AuthService.generate_tokens`
  unfoldable pub generate_tokens : ℕ → User → S → Tokens × S
  generate_tokens user_id user s =
      let (token, s') = jwt.for_user user_id s in
      (
        record {
          access = jwt.access_text_of (with_claims user token);
          refresh = jwt.text_of (with_claims user token);
        },
        s',
      )

  abbrev stored : Option S → S → Result (Unit {0}) × S
  stored none s = (err Error.unauthorized, s)
  stored (some s') s = (ok tt, s')

  abbrev blacklisted : Option RefreshToken → S → Result (Unit {0}) × S
  blacklisted none s = (err Error.unauthorized, s)
  blacklisted (some token) s = stored (jwt.blacklist token s) s

  -- `AuthService.logout`: whatever the library raises is an unauthorized request.
  unfoldable pub logout : String → S → Result (Unit {0}) × S
  logout refresh_token s = blacklisted (jwt.read refresh_token s) s

  -- A logout either blacklists the token or is refused and changes nothing.
  pub logout-cases :
      (refresh_token : String) (s : S)
      → let (r, s') = logout refresh_token s in
        ((r ≡ err Error.unauthorized) × (s' ≡ s))
        ⊎ ((r ≡ ok tt)
            × ((token : RefreshToken) × (jwt.read refresh_token s ≡ some token)
                × (jwt.blacklist token s ≡ some s')))
  unfolding logout
  logout-cases refresh_token s = elim (Option-cases (jwt.read refresh_token s)) [
    | inl unread ↦ inl (rw unread refl, rw unread refl)
    | inr (token, reads) ↦ elim (Option-cases (jwt.blacklist token s)) [
      | inl refused ↦ inl (rw reads (rw refused refl), rw reads (rw refused refl))
      | inr (s', done) ↦ inr (rw reads (rw done refl), (token, reads, rw reads (rw done refl)))
    ]
  ]

-- What a manager is given besides the phone number and the password.
pub record ExtraFields : Type 0 where
  pub role : Option UserRole
  pub is_staff : Option Bool
  pub is_superuser : Option Bool
  pub is_active : Option Bool

-- A row that a manager makes, with the columns that only the admin pages read
pub record Account : Type 0 where
  pub user : User
  pub is_superuser : Bool
  pub has_password : Bool

abbrev or_default {ℓ} : {A : Type ℓ} → A → Option A → A
or_default d none = d
or_default d (some x) = x

-- `if password:`; no password and an empty one make an unusable one.
abbrev is_given : Option String → Bool
is_given none = false
is_given (some s) = not (str_eq s "")

-- `UserManager.create_user`; none where it raises `ValueError`
unfoldable pub create_account : String → UserRole → Option String → ExtraFields → Option Account
create_account phone_number role password extra =
    if str_eq phone_number ""
    then none
    else some (record {
      user = record (new_user phone_number role) {
        is_staff = or_default false extra.is_staff;
        is_active = or_default true extra.is_active;
      };
      is_superuser = or_default false extra.is_superuser;
      has_password = is_given password;
    })

-- `UserManager.create_superuser`
unfoldable pub create_superuser : String → Option String → ExtraFields → Option Account
create_superuser phone_number password extra =
    if not (or_default true extra.is_staff)
    then none
    else if not (or_default true extra.is_superuser)
    then none
    else create_account phone_number (or_default UserRole.employer extra.role) password (record {
      role = none;
      is_staff = some (or_default true extra.is_staff);
      is_superuser = some (or_default true extra.is_superuser);
      is_active = some (or_default true extra.is_active);
    })

-- Whatever it is given, the manager makes no superuser who is not of the staff, and none without a phone
-- number.
pub create_superuser-staff :
    (phone_number : String) (password : Option String) (extra : ExtraFields) (account : Account)
    → create_superuser phone_number password extra ≡ some account
    → (account.is_superuser ≡ true)
      × (account.user.is_staff ≡ true)
      × (account.user.phone_number ≡ phone_number)
      × (str_eq phone_number "" ≡ false)
unfolding create_superuser create_account
create_superuser-staff phone_number password extra account made = ground arith
