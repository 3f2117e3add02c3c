-- ===== src/Market/Sound.antt =====
-- What holds of the database between two calls: the ledger is chained to the balances, no money is
-- made or lost, and what is held is what open jobs cost.
use ishly_back.Prelude.{◌≡◌, refl, sym, []}
use mathlib.Core.Path.{subst}
use native.Mathlib.Omega.{arith}
use ishly_back.Core.Errors.{Error}
use ishly_back.World.{World, Db, Result, ok, err}
use ishly_back.Payments.Ledger.{IsAudited, IsConserved, IsChained}
use ishly_back.Jobs.Escrow.{IsEscrowed}

pub record IsSound (db : Db) : Type 0 where
  pub audited : IsAudited db
  pub conserved : IsConserved db
  pub escrowed : IsEscrowed db

-- No rows at all.
abbrev pub empty_db : Db
empty_db = record {
  next_id = 1;
  users = [];
  wallets = [];
  transactions = [];
  payment_requests = [];
  jobs = [];
  rooms = [];
  messages = [];
  telegram_otps = [];
  categories = [];
  notifications = [];
  device_tokens = [];
}

pub empty_db-IsSound : IsSound empty_db
empty_db-IsSound = ground arith

-- The two properties of money see only wallets and transactions.
pub same-IsAudited :
    (d d' : Db)
    → d'.wallets ≡ d.wallets
    → d'.transactions ≡ d.transactions
    → IsAudited d
    → IsAudited d'
same-IsAudited d d' ew et a = record {
  balances = λ u. ground (arith, a.balances u);
  chained = subst IsChained (sym et) a.chained;
}

pub same-IsConserved :
    (d d' : Db)
    → d'.wallets ≡ d.wallets
    → d'.transactions ≡ d.transactions
    → IsConserved d
    → IsConserved d'
same-IsConserved d d' ew et c = ground arith

pub same-IsEscrowed :
    (d d' : Db) → d'.wallets ≡ d.wallets → d'.jobs ≡ d.jobs → IsEscrowed d → IsEscrowed d'
same-IsEscrowed d d' ew ej s u = ground (arith, s u)

pub same-IsSound :
    (d d' : Db)
    → d'.wallets ≡ d.wallets
    → d'.transactions ≡ d.transactions
    → d'.jobs ≡ d.jobs
    → IsSound d
    → IsSound d'
same-IsSound d d' ew et ej s = record {
  audited = same-IsAudited d d' ew et s.audited;
  conserved = same-IsConserved d d' ew et s.conserved;
  escrowed = same-IsEscrowed d d' ew ej s.escrowed;
}

-- A call keeps the invariant if it rolls back when it raises, and keeps it when it returns.
pub by_outcome :
    {A : Type 0} (r : Result A × World) (w : World)
    → IsSound w.db
    → ((e : Error) → r.0 ≡ err e → r.1.db ≡ w.db)
    → ((a : A) (w' : World) → r ≡ (ok a, w') → IsSound w'.db)
    → IsSound r.1.db
by_outcome (ok a, w') w s rolls keeps = keeps a w' refl
by_outcome (err e, w') w s rolls keeps = subst IsSound (sym (rolls e refl)) s
