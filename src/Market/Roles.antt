-- ===== src/Market/Roles.antt =====
-- Who is an employer and who a worker of the jobs in the database.
use ishly_back.Prelude.{
  ℕ, ◌≡◌, sym, ap, ◌∙◌, inl, inr, Bool, true, false, String, some, List, [], ◌∷◌, All, arith,
  Option-cases, Bool-cases, ◌==◌,
}
use mathlib.Core.Path.{subst}
use ishly_back.Prelude.Table.{lookup, modify, lookup-modify}
use ishly_back.Data.Accounts.{User, UserRole}
use ishly_back.Data.Jobs.{Job, JobFields}
use ishly_back.World.{World, Env}
use ishly_back.World.Atomic.{outcome}
use ishly_back.Payments.Posting.{
  release_job_payment-Released, refund_job-Posted, deduct_for_job-Posted,
}
use ishly_back.Jobs.Service.{
  accept_job, start_job, complete_job, cancel_job, create_job, new_job, accepted_by, started,
  completed, cancelled,
}
use ishly_back.Jobs.Outcome.{
  accept_job-Changed, start_job-Changed, complete_job-IsCompletion, cancel_job-IsCancellation,
  create_job-IsCreation,
}
use ishly_back.Jobs.Rollback.{
  accept_job_rollback, start_job_rollback, complete_job_rollback, cancel_job_rollback,
  create_job_rollback,
}
use ishly_back.Market.Calls.{Call, serve, serve_all}
use ishly_back.Market.Deposits.{initiate_deposit_frame}
use ishly_back.Accounts.Auth.{authenticate_or_create, create_user, create_user_wallet, find_phone}
use ishly_back.Payments.Deposits.{confirm_deposit, initiate_deposit}
use ishly_back.Payments.Confirmation.{confirm_deposit_rollback, confirm_deposit-IsConfirmation}
use ishly_back.Payments.Callbacks.{Confirms, payme_post-Confirms, click_post-Confirms}

module _ (is_boss : ℕ → Bool) where
  -- Employers of jobs are employers, and their workers are not.
  abbrev pub HasRoles : World → Type 0
  HasRoles w =
      (k : ℕ) (job : Job)
      → lookup k w.jobs ≡ some job
      → (is_boss job.employer ≡ true) × ((u : ℕ) → job.worker ≡ some u → is_boss u ≡ false)

  -- The user of a call has the role that the call goes by.
  abbrev pub IsHonest : Env × Call → Type 0
  IsHonest (env, Call.create user_id user data_fields) =
      user.role ≡ UserRole.employer → is_boss user_id ≡ true
  IsHonest (env, Call.accept job_id user_id user) =
      user.role ≡ UserRole.worker → is_boss user_id ≡ false
  IsHonest _ = Unit

  abbrev RolesOf : Job → Type 0
  RolesOf job = (is_boss job.employer ≡ true) × ((u : ℕ) → job.worker ≡ some u → is_boss u ≡ false)

  same-HasRoles : (w w' : World) → w'.jobs ≡ w.jobs → HasRoles w → HasRoles w'
  same-HasRoles w w' same roles k job found = roles k job (sym (ap (lookup k) same) ∙ found)

  rolled_back : (w w' : World) → w'.db ≡ w.db → HasRoles w → HasRoles w'
  rolled_back w w' e = same-HasRoles w w' (ground (arith, e))

  modify-HasRoles :
      (i : ℕ) (change : Job → Job) (row : Job) (w w' : World)
      → lookup i w.jobs ≡ some row
      → w'.jobs ≡ modify i change w.jobs
      → (RolesOf row → RolesOf (change row))
      → HasRoles w
      → HasRoles w'
  modify-HasRoles i change row w w' here e keeps roles k job found = elim (Bool-cases (i == k)) [
    | inl same ↦
        let at : change row ≡ job =
          ground (arith, e, found, same, here, lookup-modify k i change w.jobs) in
        subst RolesOf at (keeps (roles i row here))
    | inr other ↦ roles k job (ground (arith, e, found, other, lookup-modify k i change w.jobs))
  ]

  module _ (env : Env) (w : World) (roles : HasRoles w) where
    accept-HasRoles :
        (i user_id : ℕ) (user : User)
        → IsHonest (env, Call.accept i user_id user)
        → HasRoles (accept_job env i user_id user w).1
    accept-HasRoles i user_id user honest = elim (outcome (accept_job env i user_id user w)) [
      | inr (e, w', h) ↦
          rolled_back w (accept_job env i user_id user w).1
            (accept_job_rollback env w i user_id user (ap (λ r. r.0) h)) roles
      | inl (a, w', h) ↦
          let (row, c, _, _, role, _) = accept_job-Changed env i user_id user a w w' h in
          rw h (
            modify-HasRoles i (accepted_by user_id w.now) row w w' c.found c.jobs
              (λ (boss, _). (boss, λ u is_u. ground (arith, honest role))) roles)
    ]

    start-HasRoles : (i user_id : ℕ) → HasRoles (start_job env i user_id w).1
    start-HasRoles i user_id = elim (outcome (start_job env i user_id w)) [
      | inr (e, w', h) ↦
          rolled_back w (start_job env i user_id w).1
            (start_job_rollback env w i user_id (ap (λ r. r.0) h)) roles
      | inl (a, w', h) ↦
          let (row, c, _, _) = start_job-Changed env i user_id a w w' h in
          rw h (modify-HasRoles i (started w.now) row w w' c.found c.jobs (λ same. same) roles)
    ]

    complete-HasRoles :
        (i user_id : ℕ) (user : User) → HasRoles (complete_job env i user_id user w).1
    complete-HasRoles i user_id user = elim (outcome (complete_job env i user_id user w)) [
      | inr (e, w', h) ↦
          rolled_back w (complete_job env i user_id user w).1
            (complete_job_rollback env w i user_id user (ap (λ r. r.0) h)) roles
      | inl (a, w', h) ↦
          let c = complete_job-IsCompletion env i user_id user a w w' h in
          let r =
            release_job_payment-Released env i (completed w.now c.job) c.worker c.between c.after
              c.txs.0 c.txs.1 c.released in
          rw h (
            modify-HasRoles i (completed w.now) c.job w w' c.found
              (ground (arith, c.same, r.second.world, r.first.world, c.saved.jobs)) (λ same. same)
              roles)
    ]

    cancel-HasRoles :
        (i user_id : ℕ) (reason : String) → HasRoles (cancel_job env i user_id reason w).1
    cancel-HasRoles i user_id reason = elim (outcome (cancel_job env i user_id reason w)) [
      | inr (e, w', h) ↦
          rolled_back w (cancel_job env i user_id reason w).1
            (cancel_job_rollback env w i user_id reason (ap (λ r. r.0) h)) roles
      | inl (a, w', h) ↦
          let c = cancel_job-IsCancellation env i user_id reason a w w' h in
          let (row, p) =
            refund_job-Posted i (cancelled w.now reason c.job) c.between c.after c.tx c.refunded in
          rw h (
            modify-HasRoles i (cancelled w.now reason) c.job w w' c.found
              (ground (arith, c.same, p.world, c.saved.jobs)) (λ same. same) roles)
    ]

    create-HasRoles :
        (user_id : ℕ) (user : User) (data_fields : JobFields)
        → IsHonest (env, Call.create user_id user data_fields)
        → HasRoles (create_job env user_id user data_fields w).1
    create-HasRoles user_id user data_fields honest =
        elim (outcome (create_job env user_id user data_fields w)) [
          | inr (e, w', h) ↦
              rolled_back w (create_job env user_id user data_fields w).1
                (create_job_rollback env w user_id user data_fields (ap (λ r. r.0) h)) roles
          | inl (job_id, w', h) ↦
              let (c, role) = create_job-IsCreation env user_id user data_fields job_id w w' h in
              let (_, p) =
                deduct_for_job-Posted user_id c.wallet job_id (new_job user_id data_fields w.now)
                  c.between c.after c.tx (ground (arith, c.wallets, c.found)) c.deducted in
              rw h
                (λ k job found. ground (arith, c.same, p.world, c.jobs, roles k job, honest role))
        ]

    confirm-jobs :
        (request_id : ℕ) (external_id : String)
        → (confirm_deposit env request_id external_id w).1.jobs ≡ w.jobs
    confirm-jobs request_id external_id =
        elim (outcome (confirm_deposit env request_id external_id w)) [
          | inr (e, w', h) ↦
              ground
                (arith, confirm_deposit_rollback env request_id external_id w (ap (λ r. r.0) h))
          | inl (tx, w', h) ↦
              rw h (confirm_deposit-IsConfirmation env request_id external_id tx w w' h).jobs
        ]

    Confirms-HasRoles : (w' : World) → Confirms env w w' → HasRoles w'
    Confirms-HasRoles w' (inl same) = same-HasRoles w w' (ground (arith, same)) roles
    Confirms-HasRoles w' (inr (request_id, e)) =
        same-HasRoles w w' (ground (arith, e, confirm-jobs request_id "")) roles

    login-jobs :
        (phone : String) (role : UserRole) → (authenticate_or_create phone role w).1.jobs ≡ w.jobs
    unfolding authenticate_or_create create_user create_user_wallet
    login-jobs phone role = elim (Option-cases (find_phone phone w.users)) [
      | inr (found, known) ↦ ground (arith, known)
      | inl unknown ↦ ground (arith, unknown)
    ]

    serve-HasRoles : (call : Call) → IsHonest (env, call) → HasRoles (serve env call w)
    unfolding serve
    serve-HasRoles (Call.login phone role) honest =
        same-HasRoles w (authenticate_or_create phone role w).1 (login-jobs phone role) roles
    serve-HasRoles (Call.create user_id user data_fields) honest =
        create-HasRoles user_id user data_fields honest
    serve-HasRoles (Call.accept i user_id user) honest = accept-HasRoles i user_id user honest
    serve-HasRoles (Call.start i user_id) honest = start-HasRoles i user_id
    serve-HasRoles (Call.complete i user_id user) honest = complete-HasRoles i user_id user
    serve-HasRoles (Call.cancel i user_id reason) honest = cancel-HasRoles i user_id reason
    serve-HasRoles (Call.initiate providers hex user_id amount name) honest =
        let (_, _, same) = initiate_deposit_frame env providers hex user_id amount name w in
        same-HasRoles w (initiate_deposit env providers hex user_id amount name w).1 same roles
    serve-HasRoles (Call.payme providers codecs key_of payload header method order_id) honest =
        Confirms-HasRoles _
          (payme_post-Confirms env w providers codecs key_of payload header method order_id)
    serve-HasRoles (Call.click providers codecs key_of payload sign) honest =
        Confirms-HasRoles _ (click_post-Confirms env w providers codecs key_of payload sign)
    serve-HasRoles (Call.tick n) honest = roles

  -- Under calls whose users have the roles that the calls go by, jobs keep being posted by employers and
  -- taken by others only.
  pub serve_all-HasRoles :
      (calls : List (Env × Call)) (w : World)
      → All IsHonest calls
      → HasRoles w
      → HasRoles (serve_all calls w)
  unfolding serve_all
  serve_all-HasRoles [] w honest roles = roles
  serve_all-HasRoles ((env, call) ∷ calls) w (here, honest) roles =
      serve_all-HasRoles calls (serve env call w) honest (serve-HasRoles env w roles call here)
