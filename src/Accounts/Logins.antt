-- ===== src/Accounts/Logins.antt =====
-- `AuthService.authenticate_or_create` of apps/accounts/services.py, for refused and for new users.
use ishly_back.Prelude.{
  ℕ, ◌≡◌, inl, inr, ◌⊎◌, true, false, String, none, some, arith, ==_refl, refl, ◌≤◌, ◌<◌,
}
use text.Mathlib.TextPositions.{eq_refl}
use ishly_back.Prelude.Table.{lookup}
use ishly_back.Core.Strip.{text_length}
use ishly_back.Core.Errors.{Error}
use ishly_back.Data.Accounts.{User, UserRole, fits_role}
use ishly_back.Data.Payments.{empty_wallet, Wallet}
use ishly_back.World.{World, ok, err}
use ishly_back.Accounts.Auth.{
  create_user_wallet, create_user, authenticate_or_create, find_phone, new_user, seen,
}

-- A suspended or inactive user is refused, and nothing changes.
pub authenticate_or_create_refuses :
    (phone : String) (role : UserRole) (user_id : ℕ) (user : User) (w : World)
    → find_phone phone w.users ≡ some (user_id, user)
    → (user.is_blocked ≡ true) ⊎ (user.is_active ≡ false)
    → authenticate_or_create phone role w ≡ (err Error.unauthorized, w)
unfolding authenticate_or_create
authenticate_or_create_refuses phone role user_id user w found (inl blocked) = rw found (rw blocked)
authenticate_or_create_refuses phone role user_id user w found (inr inactive) =
    rw found (ground arith)

-- The role fits its column, which has ten characters.
abbrev pub RoleFits : UserRole → Type 0
RoleFits UserRole.employer = Unit
RoleFits UserRole.worker = Unit
RoleFits (UserRole.other text) = text_length text ≤ 10

RoleFits-fits : (role : UserRole) → RoleFits role → fits_role role ≡ true
RoleFits-fits UserRole.employer fit = refl
RoleFits-fits UserRole.worker fit = refl
RoleFits-fits (UserRole.other text) fit = ground (arith, fit)

-- The row of a user who has just logged in for the first time, and its wallet.
pub record IsNewUser (phone : String) (role : UserRole) (w w' : World) : Type 0 where
  pub user : User
  pub row : lookup w.next_id w'.users ≡ some user
  pub phone_number : user.phone_number ≡ phone
  pub has_role : user.role ≡ role
  pub active : (user.is_active ≡ true) × (user.is_blocked ≡ false) × (user.is_staff ≡ false)
  pub last_seen : user.last_seen ≡ some w.now
  pub wallet :
      (row : Wallet) × (lookup w.next_id w'.wallets ≡ some row)
      × (row.balance ≡ 0)
      × (row.held_balance ≡ 0)

-- A phone number that no user has and a role of at most ten characters give an active user with the
-- next key, this number and this role, and with a wallet without money; a login with the number
-- afterwards, whatever role it asks for, finds that user and makes no other. The next key has no wallet.
pub authenticate_or_create_new :
    (phone : String) (role role' : UserRole) (w : World)
    → RoleFits role
    → find_phone phone w.users ≡ none
    → lookup w.next_id w.wallets ≡ none
    → let (r, w') = authenticate_or_create phone role w in
      (r ≡ ok (w.next_id, true))
      × IsNewUser phone role w w'
      × ((authenticate_or_create phone role' w').0 ≡ ok (w.next_id, false))
unfolding authenticate_or_create create_user create_user_wallet find_phone
authenticate_or_create_new phone role role' w fit absent fresh =
    let allowed = RoleFits-fits role fit in
    rw absent (
      rw allowed (
        ground (arith, fresh, ==_refl w.next_id, eq_refl phone),
        record {
          user = seen w.now (new_user phone role);
          row = ground (arith, fresh, ==_refl w.next_id);
          phone_number = refl;
          has_role = refl;
          active = (refl, refl, refl);
          last_seen = refl;
          wallet = (empty_wallet, ground (arith, fresh, ==_refl w.next_id), refl, refl);
        },
        ground (arith, fresh, ==_refl w.next_id, eq_refl phone),
      ))

-- A role that is longer than its column makes no user.
authenticate_or_create_long :
    (phone text : String) (w : World)
    → 10 < text_length text
    → find_phone phone w.users ≡ none
    → authenticate_or_create phone (UserRole.other text) w ≡ (err Error.integrity, w)
unfolding authenticate_or_create create_user
authenticate_or_create_long phone text w long absent = rw absent (ground (arith, long))
