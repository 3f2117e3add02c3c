-- ===== src/Market/Logins.antt =====
-- The invariant across a login of apps/accounts/services.py.
use ishly_back.Prelude.{
  ℕ, ◌+◌, refl, inl, inr, not, String, Option, none, some, arith, Bool-cases, Option-cases,
}
use ishly_back.Prelude.Table.{lookup, insert}
use ishly_back.Data.Accounts.{User, UserRole, fits_role}
use ishly_back.World.{World}
use ishly_back.Accounts.Auth.{
  create_user_wallet, create_user, authenticate_or_create, find_phone, login, new_user,
}
use ishly_back.Market.Sound.{IsSound, same-IsSound}

pub create_user_wallet-IsSound :
    (user_id : ℕ) (w : World) → IsSound w.db → IsSound (create_user_wallet user_id w).1.db
unfolding create_user_wallet
create_user_wallet-IsSound user_id w s = elim (Option-cases (lookup user_id w.wallets)) [
  | inr (row, there) ↦ rw there s
  | inl absent ↦ rw absent (record {
    audited = record {
      balances = λ u. ground (arith, s.audited.balances u);
      chained = s.audited.chained;
    };
    conserved = ground (arith, s.conserved);
    escrowed = λ u. ground (arith, s.escrowed u);
  })
]

module _ (phone : String) (role : UserRole) (w : World) (s : IsSound w.db) where
  abbrev with_user : World
  with_user = record w {
    db = record w.db {
      next_id = w.next_id + 1;
      users = insert w.next_id (new_user phone role) w.users;
    };
  }

  login-IsSound : (found : Option (ℕ × User)) → IsSound (login phone role found w).1.db
  unfolding create_user create_user_wallet
  login-IsSound none = elim (Bool-cases (not (fits_role role))) [
    | inl long ↦ rw long s
    | inr fit ↦ rw fit (
        same-IsSound (create_user_wallet w.next_id with_user).1.db _ refl refl refl (
          create_user_wallet-IsSound w.next_id with_user
            (same-IsSound w.db with_user.db refl refl refl s)))
  ]
  login-IsSound (some (user_id, user)) = elim (Bool-cases user.is_blocked) [
    | inl out ↦ rw out s
    | inr allowed ↦ rw allowed (elim (Bool-cases (not user.is_active)) [
      | inl out ↦ rw out s
      | inr active ↦ rw active (same-IsSound w.db _ refl refl refl s)
    ])
  ]

  pub authenticate_or_create-IsSound : IsSound (authenticate_or_create phone role w).1.db
  unfolding authenticate_or_create
  authenticate_or_create-IsSound = login-IsSound (find_phone phone w.users)
