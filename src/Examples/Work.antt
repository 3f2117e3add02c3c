-- ===== src/Examples/Work.antt =====
-- Runs of the job services.
use ishly_back.Jobs.Room.{room_count, accept_job_room}
use ishly_back.Chat.Signals.{create_chat_room_on_accept, get_or_create_room, has_room}
use ishly_back.Prelude.{◌≡◌, inr, refl, some, [], ◌∷◌, arith, List, true, false, ◌⊎◌}
use ishly_back.Prelude.Table.{lookup}
use ishly_back.Core.Errors.{Error}
use ishly_back.Data.Accounts.{UserRole}
use ishly_back.Data.Payments.{fits}
use ishly_back.Data.Jobs.{JobStatus}
use ishly_back.World.{atomic, ok, err, Env}
use ishly_back.Jobs.Service.{
  save_job, complete_job, cancel_job, accept_job, completed, cancelled, accepted_by,
}
use ishly_back.Jobs.Escrow.{IsEscrowed}
use ishly_back.Jobs.Payout.{complete_job_pays}
use ishly_back.Jobs.Refund.{cancel_job_refunds}
use ishly_back.Jobs.Race.{accept_job_once}
use ishly_back.Jobs.Status.{
  Act, Moved, Keeps, perform, perform_all, perform-Moved, perform_all-Keeps,
}
use ishly_back.Payments.Posting.{released, paid, refunded}
use ishly_back.Examples.Fixtures.{
  env, user_of, job_with, created_job, employer_wallet, worker_wallet, world_with,
}

held_progress : IsEscrowed (world_with (job_with JobStatus.in_progress)).db
held_progress u = ground arith

complete_job_pays_example :
    let job = job_with JobStatus.in_progress in
    let (r, w') = complete_job env 5 1 (user_of UserRole.employer) (world_with job) in
    ((true ≡ false) × (r ≡ err Error.not_supported) × (w' ≡ world_with job))
    ⊎ ((true ≡ true)
        × (r ≡ ok (completed 100 job))
        × (lookup 5 w'.jobs ≡ some (completed 100 job))
        × (lookup 1 w'.wallets ≡ some (released employer_wallet 1050 employer_wallet))
        × (lookup 2 w'.wallets ≡ some (paid worker_wallet 945 worker_wallet)))
unfolding fits
complete_job_pays_example =
    complete_job_pays env 5 1 (user_of UserRole.employer) (job_with JobStatus.in_progress) 2
      employer_wallet worker_wallet (world_with (job_with JobStatus.in_progress)) held_progress refl
      refl refl refl refl (omega arith) refl refl (omega arith) (omega arith) refl refl

cancel_job_refunds_example :
    let job = job_with JobStatus.in_progress in
    let (r, w') = cancel_job env 5 2 "ill" (world_with job) in
    ((true ≡ false) × (r ≡ err Error.not_supported) × (w' ≡ world_with job))
    ⊎ ((true ≡ true)
        × (r ≡ ok (cancelled 100 "ill" job))
        × (lookup 5 w'.jobs ≡ some (cancelled 100 "ill" job))
        × (lookup 1 w'.wallets ≡ some (refunded employer_wallet 1050 employer_wallet)))
unfolding fits
cancel_job_refunds_example =
    cancel_job_refunds env 5 2 "ill" (job_with JobStatus.in_progress) employer_wallet
      (world_with (job_with JobStatus.in_progress)) held_progress refl refl (inr refl) refl refl

perform-Moved_example :
    Moved 5 created_job
      (perform env (Act.accept 5 2 (user_of UserRole.worker)) (world_with created_job))
perform-Moved_example =
    perform-Moved env (Act.accept 5 2 (user_of UserRole.worker)) (world_with created_job) 5
      created_job refl

abbrev pub acts : List (Env × Act)
acts =
    (env, Act.accept 5 2 (user_of UserRole.worker))
    ∷ (env, Act.start 5 2)
    ∷ (env, Act.complete 5 1 (user_of UserRole.employer))
    ∷ (env, Act.cancel 5 1 "late")
    ∷ []

perform_all-Keeps_example :
    (job' : _) × (lookup 5 (perform_all acts (world_with created_job)).jobs ≡ some job')
    × Keeps created_job job'
perform_all-Keeps_example = perform_all-Keeps acts (world_with created_job) 5 created_job refl

accept_job_once_example :
    accept_job env 5 3
      (user_of UserRole.worker)
      (accept_job env 5 2 (user_of UserRole.worker) (world_with created_job)).1
    ≡ (
      err Error.job_state,
      (accept_job env 5 2 (user_of UserRole.worker) (world_with created_job)).1,
    )
unfolding accept_job atomic save_job create_chat_room_on_accept get_or_create_room has_room
accept_job_once_example =
    accept_job_once env env 5 2 3 (user_of UserRole.worker) (user_of UserRole.worker)
      (accepted_by 2 100 created_job) (world_with created_job)
      (accept_job env 5 2 (user_of UserRole.worker) (world_with created_job)).1 refl refl

accept_job_room_example :
    let w' = (accept_job env 5 2 (user_of UserRole.worker) (world_with created_job)).1 in
    (room_count 5 w'.rooms ≡ 1) × (room_count 6 w'.rooms ≡ 0)
unfolding accept_job atomic save_job create_chat_room_on_accept get_or_create_room has_room
accept_job_room_example =
    accept_job_room env 5 2 6 (user_of UserRole.worker) (accepted_by 2 100 created_job)
      (world_with created_job)
      (accept_job env 5 2 (user_of UserRole.worker) (world_with created_job)).1 (omega arith)
      (omega arith) refl
