-- ===== src/Scripts/SeedSurplus.antt =====
-- The money that `_seed_jobs` of scripts/seed_data.py adds and holds without an account of it.
use ishly_back.Prelude.{
  ℕ, ◌+◌, ◌-◌, ◌*◌, ◌≡◌, ◌≤◌, refl, inl, inr, true, false, ◌&&◌, some, ◌∷◌, ◌==◌, ltb,
  if◌then◌else◌, arith, Bool-cases,
}
use ishly_back.Prelude.Table.{
  lookup, insert, modify, total, total-modify, lookup-modify, lookup-modify_self,
}
use ishly_back.Data.Payments.{Wallet}
use ishly_back.Data.Jobs.{Job, JobStatus, is_completed}
use ishly_back.World.{World, Env, ok}
use ishly_back.World.Atomic.{outcome}
use ishly_back.Payments.Ledger.{funds, commissions, deposited, held_in}
use ishly_back.Payments.Wallets.{save_wallet, create_transaction}
use ishly_back.Chat.Signals.{create_chat_room_on_accept}
use ishly_back.Jobs.Escrow.{escrow, price_held}
use ishly_back.Jobs.Service.{create_row}
use ishly_back.Scripts.SeedJobs.{
  JobDraw, seed_job, seed_row, top_up, price_of, status_drawn, seeded_job, with_status, topped_up,
  is_cancelled, seed_escrow,
}

-- What the script adds to a wallet that cannot pay the price.
abbrev pub surplus : Wallet → ℕ → ℕ
surplus row price = if ltb row.balance price then price * 2 else 0

record ToppedUp (employer : ℕ) (row : Wallet) (price : ℕ) (w w' : World) : Type 0 where
  found : lookup employer w'.wallets ≡ some (topped_up row price)
  money : total funds w'.wallets ≡ total funds w.wallets + surplus row price
  held : (u : ℕ) → held_in (lookup u w'.wallets) ≡ held_in (lookup u w.wallets)
  transactions : w'.transactions ≡ w.transactions
  jobs : w'.jobs ≡ w.jobs

top_up-ToppedUp :
    (employer : ℕ) (row : Wallet) (price : ℕ) (w w' : World)
    → lookup employer w.wallets ≡ some row
    → top_up employer row price w ≡ (ok tt, w')
    → ToppedUp employer row price w w'
unfolding save_wallet
top_up-ToppedUp employer row price w w' found h =
    let change : Wallet → Wallet = λ r. record r { balance = row.balance + price * 2 } in
    record {
      found = ground (arith, found, h, lookup-modify_self employer change w.wallets found);
      money = ground (arith, found, h, total-modify funds employer change w.wallets found);
      held = λ u. ground (arith, found, h, lookup-modify u employer change w.wallets);
      transactions = ground (arith, found, h);
      jobs = ground (arith, found, h);
    }

with_status-keeps :
    (status : JobStatus) (now : ℕ) (draw : JobDraw) (worker : ℕ) (job : Job)
    → ((with_status status now draw worker job).status ≡ job.status)
      × ((with_status status now draw worker job).employer ≡ job.employer)
      × ((with_status status now draw worker job).price ≡ job.price)
with_status-keeps JobStatus.created now draw worker job = (refl, refl, refl)
with_status-keeps JobStatus.accepted now draw worker job = (refl, refl, refl)
with_status-keeps JobStatus.in_progress now draw worker job = (refl, refl, refl)
with_status-keeps JobStatus.completed now draw worker job = (refl, refl, refl)
with_status-keeps JobStatus.cancelled now draw worker job = (refl, refl, refl)

seeded_job-keeps :
    (draw : JobDraw) (employer worker category now : ℕ)
    → let job = seeded_job draw employer worker category now in
      (job.status ≡ status_drawn draw) × (job.employer ≡ employer) × (job.price ≡ price_of draw)
unfolding seeded_job
seeded_job-keeps draw employer worker category now =
    with_status-keeps (status_drawn draw) now draw worker _

-- What a job in this state makes the script hold.
abbrev held_for : JobStatus → ℕ → ℕ
held_for status price = if is_cancelled status then 0 else price

record Rowed (employer : ℕ) (status : JobStatus) (price : ℕ) (w w' : World) : Type 0 where
  money : total funds w'.wallets ≡ total funds w.wallets
  held :
      (u : ℕ)
      → held_in (lookup u w'.wallets)
        ≡ held_in (lookup u w.wallets) + (if employer == u then held_for status price else 0)
  deposits : deposited w'.transactions ≡ deposited w.transactions
  fees : commissions w'.transactions ≡ commissions w.transactions
  job : Job
  jobs : (u : ℕ) → escrow u w'.jobs ≡ price_held u job + escrow u w.jobs
  same_status : job.status ≡ status
  same_employer : job.employer ≡ employer
  same_price : job.price ≡ price

module _ (env : Env) (draw : JobDraw) (employer worker category : ℕ) (row : Wallet) (w w' : World)
    (found : lookup employer w.wallets ≡ some (topped_up row (price_of draw)))
    (h : seed_row env draw employer worker category row w ≡ (ok tt, w')) where
  abbrev wallet : Wallet
  wallet = topped_up row (price_of draw)

  enough : price_of draw ≤ wallet.balance
  enough = ground arith

  abbrev holding_price : Wallet → Wallet
  holding_price r = record r {
    balance = wallet.balance - price_of draw;
    held_balance = wallet.held_balance + price_of draw;
  }

  abbrev job : Job
  job = seeded_job draw employer worker category w.now

  -- The database after the job, and after its escrow.
  seed_row-cancelled :
      is_cancelled (status_drawn draw) ≡ true
      → (w'.wallets ≡ w.wallets)
        × (w'.transactions ≡ w.transactions)
        × (w'.jobs ≡ insert w.next_id job w.jobs)
  unfolding create_row create_chat_room_on_accept
  seed_row-cancelled cancelled = ground (arith, h, cancelled)

  seed_row-held :
      is_cancelled (status_drawn draw) ≡ false
      → (w'.wallets ≡ modify employer holding_price w.wallets)
        × (w'.transactions ≡ seed_escrow employer wallet (price_of draw) w.next_id ∷ w.transactions)
        × (w'.jobs ≡ insert w.next_id job w.jobs)
  unfolding save_wallet create_transaction create_row create_chat_room_on_accept
  seed_row-held other = ground (arith, h, other, found)

  seed_row-Rowed : Rowed employer (status_drawn draw) (price_of draw) w w'
  seed_row-Rowed =
      let (status, boss, price) = seeded_job-keeps draw employer worker category w.now in
      elim (Bool-cases (is_cancelled (status_drawn draw))) [
        | inl cancelled ↦
            let (wallets, txs, jobs) = seed_row-cancelled cancelled in
            record {
              money = ground (arith, wallets);
              held = λ u. ground (arith, wallets, cancelled);
              deposits = ground (arith, txs);
              fees = ground (arith, txs);
              job = job;
              jobs = λ u. ground (arith, jobs);
              same_status = status;
              same_employer = boss;
              same_price = price;
            }
        | inr other ↦
            let (wallets, txs, jobs) = seed_row-held other in
            record {
              money = ground (
                arith,
                wallets,
                total-modify funds employer holding_price w.wallets found,
                enough,
              );
              held = λ u.
                  ground (
                    arith,
                    wallets,
                    other,
                    found,
                    lookup-modify u employer holding_price w.wallets,
                  );
              deposits = ground (arith, txs);
              fees = ground (arith, txs);
              job = job;
              jobs = λ u. ground (arith, jobs);
              same_status = status;
              same_employer = boss;
              same_price = price;
            }
      ]

-- What the money of the users is short of, or has too much, and what wallets hold beyond open jobs.
pub record Unaccounted (employer : ℕ) (row : Wallet) (draw : JobDraw) (w w' : World) : Type 0 where
  pub money :
      total funds w'.wallets + commissions w'.transactions + deposited w.transactions
      ≡ total funds w.wallets
        + commissions w.transactions
        + deposited w'.transactions
        + surplus row (price_of draw)
  pub held :
      (u : ℕ)
      → held_in (lookup u w'.wallets) + escrow u w.jobs
        ≡ held_in (lookup u w.wallets)
          + escrow u w'.jobs
          + (if employer == u && is_completed (status_drawn draw) then price_of draw else 0)

-- A job that the script makes brings twice its price into the wallets if the wallet of the employer
-- could not pay it, and nothing else: the other money is accounted for. And what its employer holds grows
-- by what it adds to the open jobs, but for a completed job, whose price stays held. This is where the
-- employer has a wallet and the round returns.
pub seed_job-Unaccounted :
    (env : Env) (draw : JobDraw) (employer worker category : ℕ) (row : Wallet) (w w' : World)
    → lookup employer w.wallets ≡ some row
    → seed_job env draw employer worker category w ≡ (ok tt, w')
    → Unaccounted employer row draw w w'
unfolding seed_job
seed_job-Unaccounted env draw employer worker category row w w' found h =
    elim (outcome (top_up employer row (price_of draw) w)) [
      | inr (e, w1, fails) ↦ absurd (ground (arith, found, fails, h))
      | inl (a, w1, tops) ↦
          let t = top_up-ToppedUp employer row (price_of draw) w w1 found tops in
          let rows : seed_row env draw employer worker category row w1 ≡ (ok tt, w') =
            ground (arith, found, tops, h) in
          let r = seed_row-Rowed env draw employer worker category row w1 w' t.found rows in
          record {
            money = ground (arith, t.money, t.transactions, r.money, r.deposits, r.fees);
            held = λ u. ground (
              arith,
              t.held u,
              t.jobs,
              r.held u,
              r.jobs u,
              r.same_status,
              r.same_employer,
              r.same_price,
            );
          }
    ]
