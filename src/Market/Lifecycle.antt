-- ===== src/Market/Lifecycle.antt =====
-- The invariant across the calls of `JobService` of apps/jobs/services.py.
use ishly_back.Prelude.{ℕ, ◌+◌, ◌≡◌, sym, ap, ◌∙◌, String, some, none, arith}
use mathlib.Core.Path.{subst}
use ishly_back.Prelude.Int.{pos}
use ishly_back.Prelude.Table.{lookup}
use ishly_back.Core.Commission.{calculate_commission}
use ishly_back.Data.Accounts.{User}
use ishly_back.Data.Jobs.{JobFields}
use ishly_back.World.{World, Env}
use ishly_back.Payments.Ledger.{IsAudited, IsConserved}
use ishly_back.Payments.Posting.{
  deduct_for_job-Posted, refund_job-Posted, release_job_payment-Released,
}
use ishly_back.Payments.Books.{
  Posted-IsAudited, escrowed-IsConserved, refunded-IsConserved, Released-IsConserved,
  Released-IsAudited,
}
use ishly_back.Jobs.Service.{
  create_job, accept_job, start_job, complete_job, cancel_job, completed, cancelled, new_job,
}
use ishly_back.Jobs.Outcome.{
  accept_job-Changed, start_job-Changed, complete_job-IsCompletion, cancel_job-IsCancellation,
  create_job-IsCreation,
}
use ishly_back.Jobs.Escrow.{
  accept_job-IsEscrowed, start_job-IsEscrowed, create_job-IsEscrowed, completion_escrow,
  cancellation_escrow,
}
use ishly_back.Jobs.Rollback.{
  create_job_rollback, accept_job_rollback, start_job_rollback, complete_job_rollback,
  cancel_job_rollback,
}
use ishly_back.Market.Sound.{IsSound, same-IsAudited, same-IsConserved, by_outcome}

-- A payout that is not negative and the commission add up to the price.
payout_sum :
    (env : Env) (price amount : ℕ)
    → (calculate_commission env price none).1 ≡ pos amount
    → (calculate_commission env price none).0 + amount ≡ price
unfolding calculate_commission
payout_sum env price amount h = ground arith

module _ (env : Env) (w : World) (s : IsSound w.db) where
  pub create_job-IsSound :
      (user_id : ℕ) (employer : User) (data_fields : JobFields)
      → IsSound (create_job env user_id employer data_fields w).1.db
  create_job-IsSound user_id employer data_fields =
      by_outcome (create_job env user_id employer data_fields w) w s
        (λ e. create_job_rollback env w user_id employer data_fields)
        λ job_id w' h.
          let (c, _) = create_job-IsCreation env user_id employer data_fields job_id w w' h in
          let job = new_job user_id data_fields w.now in
          let found : lookup user_id c.between.wallets ≡ some c.wallet =
            ap (lookup user_id) c.wallets ∙ c.found in
          let (le, p) =
            deduct_for_job-Posted user_id c.wallet job_id job c.between c.after c.tx found
              c.deducted in
          record {
            audited = subst IsAudited (sym c.same) (
                Posted-IsAudited p
                  (same-IsAudited w.db c.between.db c.wallets c.transactions s.audited));
            conserved = subst IsConserved (sym c.same) (
                escrowed-IsConserved c.between c.after user_id c.wallet c.tx job.price le p
                  (same-IsConserved w.db c.between.db c.wallets c.transactions s.conserved));
            escrowed =
                create_job-IsEscrowed env user_id employer data_fields job_id w w' h s.escrowed;
          }

  pub accept_job-IsSound :
      (job_id user_id : ℕ) (worker : User) → IsSound (accept_job env job_id user_id worker w).1.db
  accept_job-IsSound job_id user_id worker =
      by_outcome (accept_job env job_id user_id worker w) w s
        (λ e. accept_job_rollback env w job_id user_id worker)
        λ job' w' h.
          let (job, c, _, _, _, _) = accept_job-Changed env job_id user_id worker job' w w' h in
          record {
            audited = same-IsAudited w.db w'.db c.wallets c.transactions s.audited;
            conserved = same-IsConserved w.db w'.db c.wallets c.transactions s.conserved;
            escrowed = accept_job-IsEscrowed env job_id user_id worker job' w w' h s.escrowed;
          }

  pub start_job-IsSound : (job_id user_id : ℕ) → IsSound (start_job env job_id user_id w).1.db
  start_job-IsSound job_id user_id =
      by_outcome (start_job env job_id user_id w) w s (λ e. start_job_rollback env w job_id user_id)
        λ job' w' h.
          let (job, c, _, _) = start_job-Changed env job_id user_id job' w w' h in
          record {
            audited = same-IsAudited w.db w'.db c.wallets c.transactions s.audited;
            conserved = same-IsConserved w.db w'.db c.wallets c.transactions s.conserved;
            escrowed = start_job-IsEscrowed env job_id user_id job' w w' h s.escrowed;
          }

  pub complete_job-IsSound :
      (job_id user_id : ℕ) (employer : User)
      → IsSound (complete_job env job_id user_id employer w).1.db
  complete_job-IsSound job_id user_id employer =
      by_outcome (complete_job env job_id user_id employer w) w s
        (λ e. complete_job_rollback env w job_id user_id employer)
        λ job' w' h.
          let c = complete_job-IsCompletion env job_id user_id employer job' w w' h in
          let job = completed w.now c.job in
          let r =
            release_job_payment-Released env job_id job c.worker c.between c.after c.txs.0 c.txs.1
              c.released in
          record {
            audited = subst IsAudited (sym c.same) (
                Released-IsAudited r (
                  same-IsAudited w.db c.between.db c.saved.wallets c.saved.transactions s.audited));
            conserved = subst IsConserved (sym c.same) (
                Released-IsConserved env job c.worker c.between c.after c.txs.0 c.txs.1 r
                  (payout_sum env job.price r.amount r.payout)
                  (same-IsConserved w.db c.between.db c.saved.wallets c.saved.transactions
                    s.conserved));
            escrowed = completion_escrow env job_id user_id w w' c s.escrowed;
          }

  pub cancel_job-IsSound :
      (job_id user_id : ℕ) (reason : String) → IsSound (cancel_job env job_id user_id reason w).1.db
  cancel_job-IsSound job_id user_id reason =
      by_outcome (cancel_job env job_id user_id reason w) w s
        (λ e. cancel_job_rollback env w job_id user_id reason)
        λ job' w' h.
          let c = cancel_job-IsCancellation env job_id user_id reason job' w w' h in
          let job = cancelled w.now reason c.job in
          let (wallet, p) = refund_job-Posted job_id job c.between c.after c.tx c.refunded in
          record {
            audited = subst IsAudited (sym c.same) (
                Posted-IsAudited p (
                  same-IsAudited w.db c.between.db c.saved.wallets c.saved.transactions s.audited));
            conserved = subst IsConserved (sym c.same) (
                refunded-IsConserved c.between c.after job.employer wallet c.tx job.price p (
                  same-IsConserved w.db c.between.db c.saved.wallets c.saved.transactions
                    s.conserved));
            escrowed = cancellation_escrow env job_id user_id reason w w' c s.escrowed;
          }
