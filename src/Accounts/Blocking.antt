-- ===== src/Accounts/Blocking.antt =====
-- `UserService.block_user` and `unblock_user` of apps/accounts/services.py, and logins after them.
use text.Mathlib.Text.{◌==◌ as str_eq}
use ishly_back.Prelude.{
  ℕ, ◌≡◌, refl, inl, inr, true, false, String, some, [], ◌∷◌, ◌==◌, arith, Bool-cases,
}
use ishly_back.Prelude.Table.{Table, lookup, modify, lookup-modify_self}
use ishly_back.Core.Errors.{Error}
use ishly_back.Data.Accounts.{User, UserRole}
use ishly_back.World.{World, ok, err}
use ishly_back.Accounts.Auth.{find_phone, authenticate_or_create}
use ishly_back.Accounts.Logins.{authenticate_or_create_refuses}
use ishly_back.Accounts.Users.{block_user, unblock_user, blocked, unblocked}

find_phone-phone :
    (phone : String) (user_id : ℕ) (user : User) (users : Table User)
    → find_phone phone users ≡ some (user_id, user)
    → str_eq user.phone_number phone ≡ true
unfolding find_phone
find_phone-phone phone user_id user [] known = absurd (ground arith)
find_phone-phone phone user_id user ((j, u) ∷ users) known =
    elim (Bool-cases (str_eq u.phone_number phone)) [
      | inl here ↦ ground (arith, here)
      | inr other ↦ find_phone-phone phone user_id user users (ground (arith, other))
    ]

-- A change that keeps phone numbers changes the user that is found.
find_phone-modify :
    (phone : String) (user_id : ℕ) (user : User) (change : User → User) (users : Table User)
    → ((u : User) → (change u).phone_number ≡ u.phone_number)
    → lookup user_id users ≡ some user
    → find_phone phone users ≡ some (user_id, user)
    → find_phone phone (modify user_id change users) ≡ some (user_id, change user)
unfolding find_phone
find_phone-modify phone user_id user change [] keeps found known = absurd (ground arith)
find_phone-modify phone user_id user change ((j, u) ∷ users) keeps found known =
    elim (Bool-cases (j == user_id)) [
      | inl here ↦ ground (arith, here, keeps u, find_phone-phone phone user_id user users)
      | inr other ↦ ground (arith, other, find_phone-modify phone user_id user change users keeps)
    ]

module _ (phone : String) (user_id : ℕ) (user : User) (w : World)
    (found : lookup user_id w.users ≡ some user)
    (known : find_phone phone w.users ≡ some (user_id, user)) where
  -- A user who is blocked cannot log in, whatever the reason and the role asked for, and the attempt
  -- changes nothing; once unblocked, the user logs in again and is no new one. This is where the user has
  -- the phone number.
  pub block_user-login :
      (reason : String) (role : UserRole)
      → let w' = (block_user user_id reason w).1 in
        (authenticate_or_create phone role w' ≡ (err Error.unauthorized, w'))
        × ((authenticate_or_create phone role (unblock_user user_id w').1).0 ≡ ok (user_id, false))
  unfolding block_user unblock_user authenticate_or_create
  block_user-login reason role =
      let f = blocked reason in
      let w' = (block_user user_id reason w).1 in
      let out = find_phone-modify phone user_id user f w.users (λ u. refl) found known in
      let there = lookup-modify_self user_id f w.users found in
      let back =
        find_phone-modify phone user_id (f user) unblocked w'.users (λ u. refl) there out in
      (authenticate_or_create_refuses phone role user_id (f user) w' out (inl refl), rw back refl)
