-- ===== src/Scripts/SeedMoney.antt =====
-- The money that the command of scripts/seed_data.py makes.
use ishly_back.Prelude.{
  ℕ, ◌≡◌, ◌≢◌, refl, sym, inl, inr, true, false, some, none, List, [], ◌∷◌, ◌==◌, arith, Bool-cases,
  Option-cases,
}
use mathlib.Core.Path.{subst}
use ishly_back.Prelude.Table.{lookup}
use ishly_back.Data.Payments.{Wallet, fits}
use ishly_back.World.{World, Action, Result, ok, err, ◌>>◌}
use ishly_back.Payments.Ledger.{post, post-IsAudited, total-post}
use ishly_back.Payments.Wallets.{save_wallet, create_transaction}
use ishly_back.Accounts.Auth.{create_user_wallet}
use ishly_back.Jobs.Escrow.{held-Posted}
use ishly_back.Market.Sound.{IsSound}
use ishly_back.Market.Logins.{create_user_wallet-IsSound}
use ishly_back.Scripts.Seed.{seed_wallets, seed_wallet, fill_wallet, fund_wallet, seed_deposit}

abbrev with_balance : ℕ → Wallet → Wallet
with_balance amount row = record row { balance = amount }

-- A deposit of the script into a wallet that is empty.
post-IsSound :
    (user amount : ℕ) (row : Wallet) (w : World)
    → lookup user w.wallets ≡ some row
    → row.balance ≡ 0
    → IsSound w.db
    → IsSound (post user (with_balance amount) (seed_deposit user amount) w.db)
post-IsSound user amount row w found empty s = record {
  audited =
      post-IsAudited user row (with_balance amount) (seed_deposit user amount) w.db found
        (record { own = refl; before = sym empty; after = refl; posted = ground arith }) s.audited;
  conserved = ground (
    arith,
    s.conserved,
    total-post user row (with_balance amount) (seed_deposit user amount) w.db found,
  );
  escrowed = λ u. ground (
    arith,
    s.escrowed u,
    s.escrowed user,
    held-Posted u user row (with_balance amount) (seed_deposit user amount) w.db found,
  );
}

module _ (user amount : ℕ) (row : Wallet) (w : World)
    (found : lookup user w.wallets ≡ some row) where
  fund_wallet-fits :
      fits (with_balance amount row) ≡ true
      → (fund_wallet user amount w).1.db
        ≡ post user (with_balance amount) (seed_deposit user amount) w.db
  unfolding save_wallet create_transaction
  fund_wallet-fits fitting = ground (arith, found, fitting)

  fund_wallet-large :
      fits (with_balance amount row) ≡ false → (fund_wallet user amount w).1.db ≡ w.db
  unfolding save_wallet create_transaction
  fund_wallet-large large = ground (arith, found, large)

  fund_wallet-IsSound : row.balance ≡ 0 → IsSound w.db → IsSound (fund_wallet user amount w).1.db
  fund_wallet-IsSound empty s = elim (Bool-cases (fits (with_balance amount row))) [
    | inl fitting ↦
        subst IsSound (sym (fund_wallet-fits fitting))
          (post-IsSound user amount row w found empty s)
    | inr large ↦ subst IsSound (sym (fund_wallet-large large)) s
  ]

  filled-empty :
      row.balance ≡ 0 → (fill_wallet user amount w).1.db ≡ (fund_wallet user amount w).1.db
  filled-empty empty = ground (arith, found, empty)

  filled-full : row.balance ≢ 0 → (fill_wallet user amount w).1.db ≡ w.db
  filled-full full = ground (arith, found, full)

filled-missing :
    (user amount : ℕ) (w : World)
    → lookup user w.wallets ≡ none
    → w.db ≡ (fill_wallet user amount w).1.db
filled-missing user amount w missing = ground (arith, missing)

filled-IsSound :
    (user amount : ℕ) (w : World) → IsSound w.db → IsSound (fill_wallet user amount w).1.db
filled-IsSound user amount w s = elim (Option-cases (lookup user w.wallets)) [
  | inl missing ↦ subst IsSound (filled-missing user amount w missing) s
  | inr (row, found) ↦ elim (Bool-cases (row.balance == 0)) [
    | inl empty ↦
        subst IsSound (sym (filled-empty user amount row w found (ground (arith, empty))))
          (fund_wallet-IsSound user amount row w found (ground (arith, empty)) s)
    | inr full ↦ subst IsSound (sym (filled-full user amount row w found (ground (arith, full)))) s
  ]
]

seed_wallet-IsSound :
    (user amount : ℕ) (w : World) → IsSound w.db → IsSound (seed_wallet user amount w).1.db
unfolding create_user_wallet
seed_wallet-IsSound user amount w s =
    filled-IsSound user amount (create_user_wallet user w).1 (create_user_wallet-IsSound user w s)

-- What keeps the invariant goes on doing so after an action that kept it.
then-IsSound :
    (r : Result (Unit {0}) × World) (next : Action (Unit {0}))
    → IsSound r.1.db
    → ((w : World) → IsSound w.db → IsSound (next w).1.db)
    → IsSound (((λ w. r) >> next) r.1).1.db
then-IsSound (ok a, w) next s keeps = keeps w s
then-IsSound (err e, w) next s keeps = s

-- The wallets that the script fills leave the books balanced: the database is sound after
-- `_seed_wallets` if it was sound before, also where a wallet is refused.
pub seed_wallets-IsSound :
    (users : List (ℕ × ℕ)) (w : World) → IsSound w.db → IsSound (seed_wallets users w).1.db
unfolding seed_wallets
seed_wallets-IsSound [] w s = s
seed_wallets-IsSound ((user, amount) ∷ users) w s =
    then-IsSound (seed_wallet user amount w) (seed_wallets users)
      (seed_wallet-IsSound user amount w s) (seed_wallets-IsSound users)
