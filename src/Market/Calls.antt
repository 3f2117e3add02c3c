-- ===== src/Market/Calls.antt =====
-- The calls as data, and a run of any of them in any order.
use ishly_back.Prelude.{ℕ, ◌+◌, String, Option, List, [], ◌∷◌}
use ishly_back.Data.Accounts.{User, UserRole}
use ishly_back.Data.Jobs.{JobFields}
use ishly_back.World.{World, Env}
use ishly_back.Payments.Providers.{ProviderSettings, Payload, Codecs, Value}
use ishly_back.Payments.Deposits.{initiate_deposit}
use ishly_back.Payments.Webhooks.{payme_post, click_post}
use ishly_back.Accounts.Auth.{authenticate_or_create}
use ishly_back.Jobs.Service.{create_job, accept_job, start_job, complete_job, cancel_job}
use ishly_back.Market.Sound.{IsSound}
use ishly_back.Market.Lifecycle.{
  create_job-IsSound, accept_job-IsSound, start_job-IsSound, complete_job-IsSound,
  cancel_job-IsSound,
}
use ishly_back.Market.Deposits.{initiate_deposit-IsSound, payme_post-IsSound, click_post-IsSound}
use ishly_back.Market.Logins.{authenticate_or_create-IsSound}

-- A request that reached a service, with what the request carries; or time that passes.
pub data Call : Type 0 where
  login : String → UserRole → Call
  create : ℕ → User → JobFields → Call
  accept : ℕ → ℕ → User → Call
  start : ℕ → ℕ → Call
  complete : ℕ → ℕ → User → Call
  cancel : ℕ → ℕ → String → Call
  initiate : ProviderSettings → String → ℕ → ℕ → String → Call
  payme : ProviderSettings → Codecs → (String → Option ℕ) → Payload → String → String → Value → Call
  click : ProviderSettings → Codecs → (String → Option ℕ) → Payload → String → Call
  tick : ℕ → Call

-- The world after one call.
unfoldable pub serve : Env → Call → World → World
serve env (login phone role) w = (authenticate_or_create phone role w).1
serve env (create user_id user data_fields) w = (create_job env user_id user data_fields w).1
serve env (accept job_id user_id user) w = (accept_job env job_id user_id user w).1
serve env (start job_id user_id) w = (start_job env job_id user_id w).1
serve env (complete job_id user_id user) w = (complete_job env job_id user_id user w).1
serve env (cancel job_id user_id reason) w = (cancel_job env job_id user_id reason w).1
serve env (initiate providers hex user_id amount name) w =
    (initiate_deposit env providers hex user_id amount name w).1
serve env (payme providers codecs key_of payload header method order_id) w =
    (payme_post env providers codecs key_of payload header method order_id w).1
serve env (click providers codecs key_of payload sign) w =
    (click_post env providers codecs key_of payload sign w).1
serve env (tick n) w = record w { now = w.now + n }

-- The calls one after another, each in an environment of its own.
unfoldable pub serve_all : List (Env × Call) → World → World
serve_all [] w = w
serve_all ((env, call) ∷ calls) w = serve_all calls (serve env call w)

pub serve-IsSound :
    (env : Env) (call : Call) (w : World) → IsSound w.db → IsSound (serve env call w).db
unfolding serve
serve-IsSound env (login phone role) w s = authenticate_or_create-IsSound phone role w s
serve-IsSound env (create user_id user data_fields) w s =
    create_job-IsSound env w s user_id user data_fields
serve-IsSound env (accept job_id user_id user) w s = accept_job-IsSound env w s job_id user_id user
serve-IsSound env (start job_id user_id) w s = start_job-IsSound env w s job_id user_id
serve-IsSound env (complete job_id user_id user) w s =
    complete_job-IsSound env w s job_id user_id user
serve-IsSound env (cancel job_id user_id reason) w s =
    cancel_job-IsSound env w s job_id user_id reason
serve-IsSound env (initiate providers hex user_id amount name) w s =
    initiate_deposit-IsSound env w s providers hex user_id amount name
serve-IsSound env (payme providers codecs key_of payload header method order_id) w s =
    payme_post-IsSound env w s providers codecs key_of payload header method order_id
serve-IsSound env (click providers codecs key_of payload sign) w s =
    click_post-IsSound env w s providers codecs key_of payload sign
serve-IsSound env (tick n) w s = s

-- From a database where the ledger is chained to the balances, no money was made or lost, and every
-- wallet holds what its owner's open jobs cost, all three still hold after any calls of the login,
-- job, deposit and callback services in any order, whether each of them returned or raised, under any
-- settings.
pub serve_all-IsSound :
    (calls : List (Env × Call)) (w : World) → IsSound w.db → IsSound (serve_all calls w).db
unfolding serve_all
serve_all-IsSound [] w s = s
serve_all-IsSound ((env, call) ∷ calls) w s =
    serve_all-IsSound calls (serve env call w) (serve-IsSound env call w s)
