-- ===== src/Market/Sessions/Rows.antt =====
-- Which rows of jobs a call writes, and which keys it takes.
use ishly_back.Prelude.{
  ℕ, ◌≤◌, ◌<◌, ◌≡◌, ◌≢◌, ◌⊎◌, refl, inl, inr, true, String, none, arith, ap, ◌∙◌, Option-cases,
}
use ishly_back.Prelude.Table.{lookup, modify, insert, lookup-modify, lookup-modify_ne}
use ishly_back.Data.Accounts.{User, UserRole}
use ishly_back.Data.Jobs.{Job, JobFields}
use ishly_back.World.{World, Env, atomic}
use ishly_back.World.Atomic.{outcome}
use ishly_back.Payments.Posting.{
  release_job_payment-Released, refund_job-Posted, deduct_for_job-Posted,
}
use ishly_back.Payments.Providers.{ProviderSettings}
use ishly_back.Payments.Deposits.{initiate_deposit, confirm_deposit}
use ishly_back.Payments.Confirmation.{confirm_deposit_rollback, confirm_deposit-IsConfirmation}
use ishly_back.Payments.Callbacks.{Confirms, payme_post-Confirms, click_post-Confirms}
use ishly_back.Accounts.Auth.{authenticate_or_create, create_user, create_user_wallet, find_phone}
use ishly_back.Jobs.Service.{
  accept_job, start_job, complete_job, cancel_job, create_job, new_job, accepted_by, started,
  completed, cancelled,
}
use ishly_back.Jobs.Outcome.{
  accept_job-Changed, start_job-Changed, complete_job-IsCompletion, cancel_job-IsCancellation,
  create_job-IsCreation,
}
use ishly_back.Jobs.Rollback.{
  accept_job_rollback, start_job_rollback, complete_job_rollback, cancel_job_rollback,
  create_job_rollback,
}
use ishly_back.Jobs.Status.{Act}
use ishly_back.Market.Calls.{Call, serve}
use ishly_back.Market.Sessions.{job_of, call_of, locks_no_job}

-- No job has a key that was not given out yet.
abbrev pub IsKeyed : World → Type 0
IsKeyed w = (k : ℕ) → w.next_id ≤ k → lookup k w.jobs ≡ none

-- Keys are only taken, and one job at most is changed.
pub record Writes (k : ℕ) (w w' : World) : Type 0 where
  more : w.next_id ≤ w'.next_id
  jobs : (w'.jobs ≡ w.jobs) ⊎ ((change : Job → Job) × (w'.jobs ≡ modify k change w.jobs))

module _ (k : ℕ) (w w' : World) (writes : Writes k w w') where
  pub Writes-elsewhere : (j : ℕ) → j ≢ k → lookup j w'.jobs ≡ lookup j w.jobs
  Writes-elsewhere j other = elim writes.jobs [
    | inl same ↦ ap (lookup j) same
    | inr (change, e) ↦ ap (lookup j) e ∙ lookup-modify_ne j k change w.jobs other
  ]

  pub Writes-IsKeyed : IsKeyed w → IsKeyed w'
  Writes-IsKeyed keyed j le = elim writes.jobs [
    | inl same ↦ ap (lookup j) same ∙ keyed j (omega (arith, writes.more))
    | inr (change, e) ↦
        ground (arith, e, lookup-modify j k change w.jobs, keyed j (omega (arith, writes.more)))
  ]

rolled_back : (k : ℕ) (w w' : World) → w'.db ≡ w.db → Writes k w w'
rolled_back k w w' e = record { more = ground (arith, e); jobs = inl (ground (arith, e)) }

module _ (env : Env) (w : World) where
  accept-Writes : (i user_id : ℕ) (user : User) → Writes i w (accept_job env i user_id user w).1
  accept-Writes i user_id user = elim (outcome (accept_job env i user_id user w)) [
    | inr (e, w', h) ↦
        rolled_back i w (accept_job env i user_id user w).1
          (accept_job_rollback env w i user_id user (ap (λ r. r.0) h))
    | inl (a, w', h) ↦
        let (row, c, _, _, _, _) = accept_job-Changed env i user_id user a w w' h in
        rw h (record { more = c.more; jobs = inr (accepted_by user_id w.now, c.jobs) })
  ]

  start-Writes : (i user_id : ℕ) → Writes i w (start_job env i user_id w).1
  start-Writes i user_id = elim (outcome (start_job env i user_id w)) [
    | inr (e, w', h) ↦
        rolled_back i w (start_job env i user_id w).1
          (start_job_rollback env w i user_id (ap (λ r. r.0) h))
    | inl (a, w', h) ↦
        let (row, c, _, _) = start_job-Changed env i user_id a w w' h in
        rw h (record { more = c.more; jobs = inr (started w.now, c.jobs) })
  ]

  complete-Writes : (i user_id : ℕ) (user : User) → Writes i w (complete_job env i user_id user w).1
  complete-Writes i user_id user = elim (outcome (complete_job env i user_id user w)) [
    | inr (e, w', h) ↦
        rolled_back i w (complete_job env i user_id user w).1
          (complete_job_rollback env w i user_id user (ap (λ r. r.0) h))
    | inl (a, w', h) ↦
        let c = complete_job-IsCompletion env i user_id user a w w' h in
        let r =
          release_job_payment-Released env i (completed w.now c.job) c.worker c.between c.after
            c.txs.0 c.txs.1 c.released in
        rw h (record {
          more = ground (arith, c.same, r.second.world, r.first.world, c.saved.more);
          jobs = inr (
            completed w.now,
            ground (arith, c.same, r.second.world, r.first.world, c.saved.jobs),
          );
        })
  ]

  cancel-Writes :
      (i user_id : ℕ) (reason : String) → Writes i w (cancel_job env i user_id reason w).1
  cancel-Writes i user_id reason = elim (outcome (cancel_job env i user_id reason w)) [
    | inr (e, w', h) ↦
        rolled_back i w (cancel_job env i user_id reason w).1
          (cancel_job_rollback env w i user_id reason (ap (λ r. r.0) h))
    | inl (a, w', h) ↦
        let c = cancel_job-IsCancellation env i user_id reason a w w' h in
        let (row, p) =
          refund_job-Posted i (cancelled w.now reason c.job) c.between c.after c.tx c.refunded in
        rw h (record {
          more = ground (arith, c.same, p.world, c.saved.more);
          jobs = inr (cancelled w.now reason, ground (arith, c.same, p.world, c.saved.jobs));
        })
  ]

  pub serve_act-Writes : (act : Act) → Writes (job_of act) w (serve env (call_of act) w)
  unfolding serve
  serve_act-Writes (Act.accept i user_id user) = accept-Writes i user_id user
  serve_act-Writes (Act.start i user_id) = start-Writes i user_id
  serve_act-Writes (Act.complete i user_id user) = complete-Writes i user_id user
  serve_act-Writes (Act.cancel i user_id reason) = cancel-Writes i user_id reason

-- Keys are only taken, and one job at most is added, under a new key.
pub record Adds (w w' : World) : Type 0 where
  more : w.next_id ≤ w'.next_id
  jobs :
      (w'.jobs ≡ w.jobs)
      ⊎ ((job : Job) × (w.next_id < w'.next_id) × (w'.jobs ≡ insert w.next_id job w.jobs))

module _ (w w' : World) (adds : Adds w w') (keyed : IsKeyed w) where
  pub Adds-kept : (j : ℕ) → j < w.next_id → lookup j w'.jobs ≡ lookup j w.jobs
  Adds-kept j below = elim adds.jobs [
    | inl same ↦ ap (lookup j) same
    | inr (job, _, e) ↦ ground (arith, e)
  ]

  pub Adds-IsKeyed : IsKeyed w'
  Adds-IsKeyed j le = elim adds.jobs [
    | inl same ↦ ap (lookup j) same ∙ keyed j (omega (arith, adds.more))
    | inr (job, taken, e) ↦ ground (arith, e, keyed j (omega (arith, adds.more)))
  ]

same_rows : (w w' : World) → w'.db ≡ w.db → Adds w w'
same_rows w w' e = record { more = ground (arith, e); jobs = inl (ground (arith, e)) }

module _ (env : Env) (w : World) where
  create-Adds :
      (user_id : ℕ) (user : User) (data_fields : JobFields)
      → Adds w (create_job env user_id user data_fields w).1
  create-Adds user_id user data_fields =
      elim (outcome (create_job env user_id user data_fields w)) [
        | inr (e, w', h) ↦
            same_rows w (create_job env user_id user data_fields w).1
              (create_job_rollback env w user_id user data_fields (ap (λ r. r.0) h))
        | inl (job_id, w', h) ↦
            let (c, _) = create_job-IsCreation env user_id user data_fields job_id w w' h in
            let (_, p) =
              deduct_for_job-Posted user_id c.wallet job_id (new_job user_id data_fields w.now)
                c.between c.after c.tx (ground (arith, c.wallets, c.found)) c.deducted in
            rw h (record {
              more = ground (arith, c.same, p.world, c.more);
              jobs = inr (
                new_job user_id data_fields w.now,
                ground (arith, c.same, p.world, c.more),
                ground (arith, c.same, p.world, c.jobs, c.key),
              );
            })
      ]

  login-Adds : (phone : String) (role : UserRole) → Adds w (authenticate_or_create phone role w).1
  unfolding authenticate_or_create create_user create_user_wallet
  login-Adds phone role = elim (Option-cases (find_phone phone w.users)) [
    | inr (found, known) ↦ ground (arith, known)
    | inl unknown ↦ ground (arith, unknown)
  ]

  initiate-Adds :
      (providers : ProviderSettings) (hex : String) (user_id amount : ℕ) (name : String)
      → Adds w (initiate_deposit env providers hex user_id amount name w).1
  unfolding initiate_deposit atomic
  initiate-Adds providers hex user_id amount name = record {
    more = ground arith;
    jobs = inl (ground arith);
  }

  confirm-Adds :
      (request_id : ℕ) (external_id : String)
      → Adds w (confirm_deposit env request_id external_id w).1
  confirm-Adds request_id external_id =
      elim (outcome (confirm_deposit env request_id external_id w)) [
        | inr (e, w', h) ↦
            same_rows w (confirm_deposit env request_id external_id w).1
              (confirm_deposit_rollback env request_id external_id w (ap (λ r. r.0) h))
        | inl (tx, w', h) ↦
            let c = confirm_deposit-IsConfirmation env request_id external_id tx w w' h in
            rw h (record { more = ground (arith, c.keys, c.posted.world); jobs = inl c.jobs })
      ]

  Confirms-Adds : (w' : World) → Confirms env w w' → Adds w w'
  Confirms-Adds w' (inl same) = same_rows w w' (ground (arith, same))
  Confirms-Adds w' (inr (request_id, e)) = rw e (confirm-Adds request_id "")

  pub serve-Adds : (call : Call) → locks_no_job call ≡ true → Adds w (serve env call w)
  unfolding serve
  serve-Adds (Call.login phone role) h = login-Adds phone role
  serve-Adds (Call.create user_id user data_fields) h = create-Adds user_id user data_fields
  serve-Adds (Call.initiate providers hex user_id amount name) h =
      initiate-Adds providers hex user_id amount name
  serve-Adds (Call.payme providers codecs key_of payload header method order_id) h =
      Confirms-Adds _
        (payme_post-Confirms env w providers codecs key_of payload header method order_id)
  serve-Adds (Call.click providers codecs key_of payload sign) h =
      Confirms-Adds _ (click_post-Confirms env w providers codecs key_of payload sign)
  serve-Adds (Call.tick n) h = same_rows w _ refl
  serve-Adds (Call.accept _ _ _) h = absurd (ground arith)
  serve-Adds (Call.start _ _) h = absurd (ground arith)
  serve-Adds (Call.complete _ _ _) h = absurd (ground arith)
  serve-Adds (Call.cancel _ _ _) h = absurd (ground arith)
