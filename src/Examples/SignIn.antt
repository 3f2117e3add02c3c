-- ===== src/Examples/SignIn.antt =====
-- Runs of the account services.
use ishly_back.Prelude.{
  List, [], ◌∷◌, ◌⊎◌, ◌≤◌, none, arith, ◌≡◌, refl, true, false, some, String, ltb, if◌then◌else◌,
}
use ishly_back.Prelude.Table.{modify, lookup}
use ishly_back.Core.Errors.{Error}
use ishly_back.Data.Accounts.{User, UserRole}
use ishly_back.World.{World, ok, err}
use ishly_back.Accounts.Auth.{find_phone, authenticate_or_create}
use ishly_back.Accounts.Otp.{
  get_otp_rate_limit_key, cache_get, count_send, latest, revoke_all, send_otp, verify_otp,
}
use ishly_back.Accounts.OtpOnce.{at, verdict, verify_after_send, verify_otp_once}
use ishly_back.Accounts.OtpLimit.{Request, sends_ok, sends_ok-le}
use ishly_back.Accounts.Rates.{rate_user-parties}
use ishly_back.Data.Jobs.{Job, JobStatus}
use ishly_back.Accounts.Telegram.{Http, telegram_gateway, IsVerified, telegram-IsVerified}
use ishly_back.Accounts.Users.{rate_user, update_rating, block_user, unblock_user}
use ishly_back.Accounts.Blocking.{block_user-login}
use ishly_back.Accounts.Ratings.{IsRated, update_rating_bounds}
use ishly_back.Accounts.Logins.{authenticate_or_create_new, IsNewUser}
use ishly_back.Examples.Fixtures.{
  gateway, floor_rounding, user_of, empty_world, world_with, job_with, created_job,
}

abbrev sent : World
sent = (send_otp gateway "+998901234567" empty_world).1

verify_after_send_example :
    (request_id : String) × (gateway.send "+998901234567" ≡ some request_id)
    × ((verify_otp gateway "+998901234567" "1234" (at 200 sent)).0
        ≡ (if ltb 400 200 then err Error.otp else verdict (gateway.verify request_id "1234")))
unfolding send_otp cache_get revoke_all count_send
verify_after_send_example =
    verify_after_send gateway "+998901234567" "1234" 200 empty_world sent refl

verify_otp_once_example :
    let v = (verify_otp gateway "+998901234567" "1234" (at 200 sent)).1 in
    verify_otp gateway "+998901234567" "1234" (at 210 v) ≡ (err Error.otp, at 210 v)
unfolding send_otp verify_otp cache_get revoke_all count_send latest
verify_otp_once_example =
    verify_otp_once gateway "+998901234567" "1234" "1234" 200 210 true empty_world sent
      (verify_otp gateway "+998901234567" "1234" (at 200 sent)).1 refl refl

update_rating_bounds_example :
    IsRated (update_rating floor_rounding 500 (user_of UserRole.worker))
    × ((update_rating floor_rounding 500 (user_of UserRole.worker)).rating_count ≡ 3)
update_rating_bounds_example =
    update_rating_bounds floor_rounding 500 (user_of UserRole.worker)
      (λ _. (omega arith, omega arith)) (omega arith) (omega arith)

authenticate_or_create_new_example :
    let (r, w') = authenticate_or_create "+998901234567" UserRole.worker empty_world in
    (r ≡ ok (1, true))
    × IsNewUser "+998901234567" UserRole.worker empty_world w'
    × ((authenticate_or_create "+998901234567" UserRole.employer w').0 ≡ ok (1, false))
unfolding find_phone
authenticate_or_create_new_example =
    authenticate_or_create_new "+998901234567" UserRole.worker UserRole.employer empty_world tt refl
      refl

abbrev requests : List Request
requests =
    record { time = 100; send = gateway.send }
    ∷ record { time = 110; send = λ _. none }
    ∷ record { time = 120; send = gateway.send }
    ∷ record { time = 130; send = gateway.send }
    ∷ record { time = 140; send = gateway.send }
    ∷ []

sends_ok-le_example : sends_ok gateway "+998901234567" requests empty_world ≤ 3
sends_ok-le_example = sends_ok-le gateway "+998901234567" 100 requests empty_world tt (ground arith)

sends_ok_three : sends_ok gateway "+998901234567" requests empty_world ≡ 3
unfolding sends_ok send_otp cache_get revoke_all count_send get_otp_rate_limit_key
sends_ok_three = refl

abbrev done_world : World
done_world = world_with (job_with JobStatus.completed)

rate_user-parties_example :
    let w' = (rate_user floor_rounding 1 2 500 5 done_world).1 in
    (job : Job) × (lookup 5 done_world.jobs ≡ some job)
    × (job.status ≡ JobStatus.completed)
    × (((job.employer ≡ 1) × (job.worker ≡ some 2)) ⊎ ((job.employer ≡ 2) × (job.worker ≡ some 1)))
    × (w'.users ≡ modify 2 (update_rating floor_rounding 500) done_world.users)
unfolding rate_user
rate_user-parties_example =
    rate_user-parties floor_rounding 1 2 500 5 done_world
      (rate_user floor_rounding 1 2 500 5 done_world).1 refl

abbrev http : Http
http = record {
  send_message = λ phone. some (record { accepted = true; request_id = "req1" });
  check_status = λ rid code. some (record { accepted = true; status = some "code_valid" });
  digest = λ phone. phone;
}

abbrev texted : World
texted = (send_otp (telegram_gateway http) "+998901234567" empty_world).1

telegram-IsVerified_example : IsVerified http "+998901234567" "1234" 100 200
unfolding send_otp verify_otp cache_get revoke_all telegram_gateway count_send latest
telegram-IsVerified_example =
    telegram-IsVerified http "+998901234567" "1234" 200 true empty_world texted
      (verify_otp (telegram_gateway http) "+998901234567" "1234" (at 200 texted)).1 refl refl

abbrev second_user : User
second_user = record (user_of UserRole.worker) { phone_number = "+998907654321" }

-- Users 1 and 2 with a phone number each.
abbrev two_phones : World
two_phones = record (world_with created_job) {
  db = record (world_with created_job).db {
    users = (1, user_of UserRole.employer) ∷ (2, second_user) ∷ [];
  };
}

block_user-login_example :
    let w = (block_user 2 "fraud" two_phones).1 in
    (authenticate_or_create "+998907654321" UserRole.worker w ≡ (err Error.unauthorized, w))
    × ((authenticate_or_create "+998907654321" UserRole.worker (unblock_user 2 w).1).0
        ≡ ok (2, false))
unfolding find_phone
block_user-login_example =
    block_user-login "+998907654321" 2 second_user two_phones refl refl "fraud" UserRole.worker
