-- ===== src/Market/Funds.antt =====
-- The money of one user, in a wallet that others act on, across the calls of all services.
use ishly_back.Prelude.{
  ℕ, ◌≤◌, ◌≡◌, ◌≢◌, inl, inr, Bool, false, String, Option, none, some, List, [], ◌∷◌, All, arith,
  ◌==◌, Option-cases, refl, ap, ◌∙◌,
}
use ishly_back.Prelude.Table.{lookup, lookup-modify}
use ishly_back.Core.Errors.{Error}
use ishly_back.Data.Accounts.{User, UserRole}
use ishly_back.Data.Payments.{Wallet, Transaction, TransactionType}
use ishly_back.Data.Jobs.{JobFields}
use ishly_back.World.{World, Env, Result, ok, err}
use ishly_back.Accounts.Auth.{authenticate_or_create, create_user, create_user_wallet, find_phone}
use ishly_back.Payments.Ledger.{funds}
use ishly_back.Payments.Posting.{
  Posted, deduct_for_job-Posted, refund_job-Posted, release_job_payment-Released,
}
use ishly_back.Payments.Providers.{ProviderSettings}
use ishly_back.Payments.Deposits.{initiate_deposit, confirm_deposit}
use ishly_back.Payments.Callbacks.{Confirms, payme_post-Confirms, click_post-Confirms}
use ishly_back.Payments.Confirmation.{confirm_deposit-IsConfirmation, confirm_deposit_rollback}
use ishly_back.Jobs.Service.{
  create_job, accept_job, start_job, complete_job, cancel_job, completed, cancelled, new_job,
}
use ishly_back.Jobs.Outcome.{
  accept_job-Changed, start_job-Changed, complete_job-IsCompletion, cancel_job-IsCancellation,
  create_job-IsCreation,
}
use ishly_back.Jobs.Rollback.{
  create_job_rollback, accept_job_rollback, start_job_rollback, complete_job_rollback,
  cancel_job_rollback,
}
use ishly_back.Market.Deposits.{initiate_deposit_frame}
use ishly_back.Market.Calls.{Call, serve, serve_all}

-- The money of a user, available or held; nothing where there is no wallet.
abbrev pub funds_in : Option Wallet → ℕ
funds_in none = 0
funds_in (some row) = funds row

-- Nothing of the user `v` is gone.
abbrev pub Retains : ℕ → World → World → Type 0
Retains v w w' = funds_in (lookup v w.wallets) ≤ funds_in (lookup v w'.wallets)

-- A call that raises rolls back, and so retains.
by_outcome-Retains :
    {A : Type 0} (v : ℕ) (r : Result A × World) (w : World)
    → ((e : Error) → r.0 ≡ err e → r.1.db ≡ w.db)
    → ((a : A) (w' : World) → r ≡ (ok a, w') → Retains v w w')
    → Retains v w r.1
by_outcome-Retains v (ok a, w') w rolls keeps = keeps a w' refl
by_outcome-Retains v (err e, w') w rolls keeps = ground (arith, rolls e refl)

-- One posting that does not lower the money of its row.
Posted-Retains :
    (v owner : ℕ) (row : Wallet) (change : Wallet → Wallet) (kind : TransactionType) (amount : ℕ)
    (tx : Transaction) (w w' : World)
    → Posted w owner row change kind amount tx w'
    → funds row ≤ funds (change row)
    → Retains v w w'
Posted-Retains v owner row change kind amount tx w w' p le =
    ground (arith, p.found, p.world, lookup-modify v owner change w.wallets)

-- One posting in another wallet.
Posted-other :
    (v owner : ℕ) (row : Wallet) (change : Wallet → Wallet) (kind : TransactionType) (amount : ℕ)
    (tx : Transaction) (w w' : World)
    → Posted w owner row change kind amount tx w'
    → v ≢ owner
    → Retains v w w'
Posted-other v owner row change kind amount tx w w' p ne =
    ground (arith, p.world, lookup-modify v owner change w.wallets)

module _ (env : Env) (v : ℕ) (w : World) where
  create-Retains :
      (user_id : ℕ) (user : User) (data_fields : JobFields)
      → Retains v w (create_job env user_id user data_fields w).1
  create-Retains user_id user data_fields =
      by_outcome-Retains v (create_job env user_id user data_fields w) w
        (λ e. create_job_rollback env w user_id user data_fields)
        λ job_id w' h.
          let (c, _) = create_job-IsCreation env user_id user data_fields job_id w w' h in
          let found : lookup user_id c.between.wallets ≡ some c.wallet =
            ap (lookup user_id) c.wallets ∙ c.found in
          let (le, p) =
            deduct_for_job-Posted user_id c.wallet job_id (new_job user_id data_fields w.now)
              c.between c.after c.tx found c.deducted in
          ground (
            arith,
            Posted-Retains v user_id c.wallet _ _ _ c.tx c.between c.after p (omega (arith, le)),
            c.wallets,
            c.same,
          )

  accept-Retains :
      (job_id user_id : ℕ) (user : User) → Retains v w (accept_job env job_id user_id user w).1
  accept-Retains job_id user_id user =
      by_outcome-Retains v (accept_job env job_id user_id user w) w
        (λ e. accept_job_rollback env w job_id user_id user)
        λ job w' h.
          let (_, c, _, _, _, _) = accept_job-Changed env job_id user_id user job w w' h in
          ground (arith, c.wallets)

  start-Retains : (job_id user_id : ℕ) → Retains v w (start_job env job_id user_id w).1
  start-Retains job_id user_id =
      by_outcome-Retains v (start_job env job_id user_id w) w
        (λ e. start_job_rollback env w job_id user_id)
        λ job w' h.
          let (_, c, _, _) = start_job-Changed env job_id user_id job w w' h in
          ground (arith, c.wallets)

  complete-Retains :
      (job_id user_id : ℕ) (user : User)
      → v ≢ user_id
      → Retains v w (complete_job env job_id user_id user w).1
  complete-Retains job_id user_id user other =
      by_outcome-Retains v (complete_job env job_id user_id user w) w
        (λ e. complete_job_rollback env w job_id user_id user)
        λ job w' h.
          let c = complete_job-IsCompletion env job_id user_id user job w w' h in
          let r =
            release_job_payment-Released env job_id (completed w.now c.job) c.worker c.between
              c.after c.txs.0 c.txs.1 c.released in
          let ne : v ≢ c.job.employer = ground (arith, c.employer) in
          ground (
            arith,
            Posted-other v c.job.employer r.employer_row _ _ _ c.txs.0 c.between r.between r.first
                ne,
            Posted-Retains v c.worker r.later_row _ _ _ c.txs.1 r.between c.after r.second
                (omega (arith, r.same_balance)),
            c.saved.wallets,
            c.same,
          )

  cancel-Retains :
      (job_id user_id : ℕ) (reason : String)
      → Retains v w (cancel_job env job_id user_id reason w).1
  cancel-Retains job_id user_id reason =
      by_outcome-Retains v (cancel_job env job_id user_id reason w) w
        (λ e. cancel_job_rollback env w job_id user_id reason)
        λ job w' h.
          let c = cancel_job-IsCancellation env job_id user_id reason job w w' h in
          let (row, p) =
            refund_job-Posted job_id (cancelled w.now reason c.job) c.between c.after c.tx
              c.refunded in
          ground (
            arith,
            Posted-Retains v c.job.employer row _ _ _ c.tx c.between c.after p (omega arith),
            c.saved.wallets,
            c.same,
          )

  confirm-Retains :
      (request_id : ℕ) (external_id : String)
      → Retains v w (confirm_deposit env request_id external_id w).1
  confirm-Retains request_id external_id =
      by_outcome-Retains v (confirm_deposit env request_id external_id w) w
        (λ e. confirm_deposit_rollback env request_id external_id w)
        λ tx w' h.
          let c = confirm_deposit-IsConfirmation env request_id external_id tx w w' h in
          ground (
            arith,
            Posted-Retains v c.request.wallet c.wallet _ _ _ tx w c.after c.posted (omega arith),
            c.wallets,
          )

  initiate-Retains :
      (providers : ProviderSettings) (hex : String) (user_id amount : ℕ) (name : String)
      → Retains v w (initiate_deposit env providers hex user_id amount name w).1
  initiate-Retains providers hex user_id amount name =
      let (ew, _, _) = initiate_deposit_frame env providers hex user_id amount name w in
      ground (arith, ew)

  login-Retains :
      (phone : String) (role : UserRole) → Retains v w (authenticate_or_create phone role w).1
  unfolding authenticate_or_create create_user create_user_wallet
  login-Retains phone role = elim (Option-cases (find_phone phone w.users)) [
    | inr (found, known) ↦ ground (arith, known)
    | inl unknown ↦ elim (Option-cases (lookup w.next_id w.wallets)) [
      | inl absent ↦ ground (arith, unknown, absent)
      | inr (row, present) ↦ ground (arith, unknown, present)
    ]
  ]

  Confirms-Retains : (w' : World) → Confirms env w w' → Retains v w w'
  Confirms-Retains w' (inl same) = ground (arith, same)
  Confirms-Retains w' (inr (request_id, e)) = ground (arith, e, confirm-Retains request_id "")

-- the completion of a job by the user `v`
abbrev pub is_completion_by : ℕ → Call → Bool
is_completion_by v (Call.complete _ user_id _) = user_id == v
is_completion_by v _ = false

-- No call takes money from a user, other than that user's own completion of a job: what a wallet has,
-- available and held together, never falls in any other call.
pub serve-Retains :
    (env : Env) (v : ℕ) (call : Call) (w : World)
    → is_completion_by v call ≡ false
    → Retains v w (serve env call w)
unfolding serve
serve-Retains env v (Call.login phone role) w h = login-Retains env v w phone role
serve-Retains env v (Call.create user_id user data_fields) w h =
    create-Retains env v w user_id user data_fields
serve-Retains env v (Call.accept job_id user_id user) w h =
    accept-Retains env v w job_id user_id user
serve-Retains env v (Call.start job_id user_id) w h = start-Retains env v w job_id user_id
serve-Retains env v (Call.complete job_id user_id user) w h =
    complete-Retains env v w job_id user_id user (ground arith)
serve-Retains env v (Call.cancel job_id user_id reason) w h =
    cancel-Retains env v w job_id user_id reason
serve-Retains env v (Call.initiate providers hex user_id amount name) w h =
    initiate-Retains env v w providers hex user_id amount name
serve-Retains env v (Call.payme providers codecs key_of payload header method order_id) w h =
    Confirms-Retains env v w _
      (payme_post-Confirms env w providers codecs key_of payload header method order_id)
serve-Retains env v (Call.click providers codecs key_of payload sign) w h =
    Confirms-Retains env v w _ (click_post-Confirms env w providers codecs key_of payload sign)
serve-Retains env v (Call.tick t) w h = ground arith

-- Over any sequence of calls in which a user completes no job, that user's money, available and held
-- together, does not fall, whoever makes the calls and however they end.
pub serve_all-Retains :
    (v : ℕ) (calls : List (Env × Call)) (w : World)
    → All (λ (c : Env × Call). is_completion_by v c.1 ≡ false) calls
    → Retains v w (serve_all calls w)
unfolding serve_all
serve_all-Retains v [] w _ = omega arith
serve_all-Retains v ((env, call) ∷ calls) w (other, others) =
    omega
      (arith, serve-Retains env v call w other, serve_all-Retains v calls (serve env call w) others)
