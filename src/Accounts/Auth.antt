-- ===== src/Accounts/Auth.antt =====
-- `create_user_wallet` of apps/accounts/signals.py and `AuthService.authenticate_or_create` of
-- apps/accounts/services.py. The tokens that a login answers with are in Tokens.
use text.Mathlib.Text.{◌==◌}
use ishly_back.Prelude.{
  ℕ, ◌+◌, Bool, true, false, not, String, Option, none, some, [], ◌∷◌, if◌then◌else◌,
}
use ishly_back.Prelude.Table.{Table, lookup, insert, modify}
use ishly_back.Core.Errors.{Error}
use ishly_back.Data.Accounts.{User, UserRole, fits_role}
use ishly_back.Data.Payments.{Wallet, empty_wallet}
use ishly_back.World.{Db, Action, pure, raise_if, gets, modify_db, ◌>>=◌, ◌>>◌}

abbrev pub add_wallet : ℕ → Option Wallet → Db → Db
add_wallet user_id none db = record db { wallets = insert user_id empty_wallet db.wallets }
add_wallet user_id (some _) db = db

-- `Wallet.objects.get_or_create(user=...)`, the receiver of `post_save` for a new user
unfoldable pub create_user_wallet : ℕ → Action (Unit {0})
create_user_wallet user_id = modify_db (λ db. add_wallet user_id (lookup user_id db.wallets) db)

-- The user with a phone number, which is unique.
unfoldable pub find_phone : String → Table User → Option (ℕ × User)
find_phone phone [] = none
find_phone phone ((user_id, user) ∷ users) =
    if user.phone_number == phone then some (user_id, user) else find_phone phone users

abbrev pub new_user : String → UserRole → User
new_user phone role = record {
  phone_number = phone;
  role = role;
  name = "";
  rating = 0;
  rating_count = 0;
  is_active = true;
  is_staff = false;
  is_blocked = false;
  block_reason = "";
  is_profile_complete = false;
  last_seen = none;
}

-- The row that `get_or_create` makes, and its wallet. A role that is longer than its column is an error.
unfoldable pub create_user : String → UserRole → Action ℕ
create_user phone role = do
  raise_if (not (fits_role role)) Error.integrity
  user_id ← gets (λ w. w.next_id)
  modify_db (λ db. record db {
    next_id = db.next_id + 1;
    users = insert user_id (new_user phone role) db.users;
  })
  create_user_wallet user_id
  pure user_id

abbrev pub seen : ℕ → User → User
seen now user = record user { last_seen = some now }

abbrev pub touch : ℕ → Action (Unit {0})
touch user_id = do
  now ← gets (λ w. w.now)
  modify_db (λ db. record db { users = modify user_id (seen now) db.users })

abbrev pub login : String → UserRole → Option (ℕ × User) → Action (ℕ × Bool)
login phone role none = do user_id ← create_user phone role; touch user_id; pure (user_id, true)
login phone role (some (user_id, user)) = do
  raise_if user.is_blocked Error.unauthorized
  raise_if (not user.is_active) Error.unauthorized
  touch user_id
  pure (user_id, false)

-- `AuthService.authenticate_or_create`: the key of the user, and whether it is new
unfoldable pub authenticate_or_create : String → UserRole → Action (ℕ × Bool)
authenticate_or_create phone role w = login phone role (find_phone phone w.users) w
