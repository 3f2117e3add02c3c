-- ===== src/Examples/Requests.antt =====
-- Runs of HTTP requests, of the job lists, and of whole days.
use ishly_back.Accounts.Users.{is_active_user}
use ishly_back.Prelude.{false, ◌≡◌, refl, true, none, some, List, [], ◌∷◌, arith}
use ishly_back.Data.Accounts.{User, UserRole}
use ishly_back.World.{Env}
use ishly_back.Market.Calls.{Call, serve_all}
use ishly_back.Market.Sound.{IsSound, empty_db-IsSound}
use ishly_back.Market.Funds.{Retains, serve_all-Retains}
use ishly_back.Api.Access.{Requester}
use ishly_back.Api.Requests.{Request, handle}
use ishly_back.Api.Requests.Reach.{Reaches, handle-Reaches}
use ishly_back.Api.Requests.Safety.{Arrival, receive_all, receive_all-IsSound, receive_all-Retains}
use ishly_back.Api.Requests.Denied.{handle_anonymous, handle_suspended}
use ishly_back.Examples.Fixtures.{env, site, user_of, fields, created_job, world_with, empty_world}

abbrev calls : List (Env × Call)
calls =
    (env, Call.create 1 (user_of UserRole.employer) fields)
    ∷ (env, Call.accept 5 2 (user_of UserRole.worker))
    ∷ (env, Call.start 5 2)
    ∷ (env, Call.cancel 5 2 "ill")
    ∷ []

serve_all-Retains_example :
    Retains 1 (world_with created_job) (serve_all calls (world_with created_job))
serve_all-Retains_example =
    serve_all-Retains 1 calls (world_with created_job) (refl, (refl, (refl, (refl, tt))))

abbrev arrivals : List Arrival
arrivals =
    record { site = site; who = none; time = 100; request = Request.send_otp "+998901234567" }
    ∷ record {
      site = site;
      who = some (1, user_of UserRole.employer);
      time = 130;
      request = Request.create fields;
    }
    ∷ record {
      site = site;
      who = some (1, user_of UserRole.employer);
      time = 140;
      request = Request.cancel 5 "late";
    }
    ∷ []

receive_all-IsSound_example : IsSound (receive_all arrivals empty_world).db
receive_all-IsSound_example = receive_all-IsSound arrivals empty_world empty_db-IsSound

receive_all-Retains_example :
    Retains 2 (world_with created_job) (receive_all arrivals (world_with created_job))
receive_all-Retains_example =
    receive_all-Retains 2 arrivals (world_with created_job) (tt, (omega arith, (omega arith, tt)))

handle-Reaches_example :
    let who : Requester = some (2, user_of UserRole.worker) in
    Reaches site who
      (world_with created_job)
      (handle site who (Request.accept 5) (world_with created_job)).1
handle-Reaches_example =
    handle-Reaches site (some (2, user_of UserRole.worker)) (Request.accept 5)
      (world_with created_job)

handle_anonymous_example :
    handle site none (Request.accept 5) (world_with created_job) ≡ (401, world_with created_job)
handle_anonymous_example = handle_anonymous site (Request.accept 5) (world_with created_job) refl

abbrev suspended : User
suspended = record (user_of UserRole.employer) { is_blocked = true; is_active = false }

handle_suspended_example :
    handle site (some (1, suspended)) (Request.accept 5) (world_with created_job)
    ≡ (401, world_with created_job)
unfolding is_active_user
handle_suspended_example =
    handle_suspended site 1 suspended (Request.accept 5) (world_with created_job) refl refl refl
