-- ===== src/Examples/Lists.antt =====
-- Runs of the job lists, and of a job from its creation to its payment.
use ishly_back.Prelude.{
  ◌≡◌, ◌⊎◌, refl, Bool, true, false, String, List, none, some, [], ◌∷◌, keep, arith,
}
use ishly_back.Prelude.Table.{lookup}
use ishly_back.Core.Sorting.{SameRows, IsOrdered, sort, insert_sorted}
use ishly_back.Core.Errors.{Error}
use ishly_back.Data.Accounts.{UserRole}
use ishly_back.Data.Jobs.{Job, JobStatus, JobCategory}
use ishly_back.Jobs.Categories.{
  Shop, ShopEvent, request, edit, wait, history, list_categories, active_categories,
}
use ishly_back.Data.Payments.{fits}
use ishly_back.World.{World, base_settings, ok, err}
use ishly_back.Jobs.Service.{accept_job, start_job, complete_job, accepted_by, started}
use ishly_back.Jobs.Escrow.{IsEscrowed}
use ishly_back.Jobs.Finish.{job_can_finish}
use ishly_back.Payments.Posting.{released, paid}
use ishly_back.Jobs.Discovery.{SortBy, JobFilter, get_available_jobs}
use ishly_back.Jobs.Discovery.Listing.{
  get_available_jobs-list, get_available_jobs-place, plain_rows, is_wanted, precedes,
  place_precedes, is_around, with_km,
}
use ishly_back.Examples.Fixtures.{
  env, floats, user_of, fields, created_job, employer_wallet, worker_wallet, world_with,
}

held_created : IsEscrowed (world_with created_job).db
held_created u = ground arith

job_can_finish_example :
    let w = world_with created_job in
    let (a, u) = accept_job env 5 2 (user_of UserRole.worker) w in
    let (b, v) = start_job env 5 2 u in
    let (r, w') = complete_job env 5 1 (user_of UserRole.employer) v in
    (a ≡ ok (accepted_by 2 w.now created_job))
    × (b ≡ ok (started u.now (accepted_by 2 w.now created_job)))
    × (((true ≡ false) × (r ≡ err Error.not_supported) × (w' ≡ v))
        ⊎ ((true ≡ true)
            × ((job' : Job) × (r ≡ ok job')
                × (lookup 5 w'.jobs ≡ some job')
                × (job'.status ≡ JobStatus.completed)
                × (job'.worker ≡ some 2)
                × (lookup 1 w'.wallets ≡ some (released employer_wallet 1050 employer_wallet))
                × (lookup 2 w'.wallets ≡ some (paid worker_wallet 945 worker_wallet)))))
unfolding fits
job_can_finish_example =
    job_can_finish env 5 1 2 (user_of UserRole.employer) (user_of UserRole.worker) created_job
      employer_wallet worker_wallet (world_with created_job) held_created refl refl refl
      (omega arith) refl refl refl refl refl (omega arith) (omega arith) refl refl

-- an older job, further away and cheaper
abbrev far_job : Job
far_job = record created_job {
  fields = record fields { price = 900; latitude = 30 };
  created_at = 5;
}

abbrev two_jobs : World
two_jobs = record (world_with created_job) {
  db = record (world_with created_job).db { jobs = (4, far_job) ∷ (5, created_job) ∷ [] };
}

abbrev by_price : JobFilter
by_price = record {
  lat = none;
  lon = none;
  radius_km = none;
  category = none;
  min_price = some 500;
  max_price = none;
  sort_by = SortBy.price_up;
}

abbrev nearby : JobFilter
nearby = record by_price { lat = some 10; lon = some 0; sort_by = SortBy.distance }

get_available_jobs-list_example :
    let answer = get_available_jobs floats base_settings by_price two_jobs in
    SameRows answer (plain_rows (keep (is_wanted [] by_price) two_jobs.jobs))
    × IsOrdered (precedes SortBy.price_up) answer
get_available_jobs-list_example =
    get_available_jobs-list floats base_settings by_price two_jobs refl

get_available_jobs-place_example :
    let answer = get_available_jobs floats base_settings nearby two_jobs in
    SameRows answer (
      with_km floats 10 0 (
        keep
          (is_around floats base_settings nearby 10 0)
          (keep (is_wanted [] nearby) two_jobs.jobs)))
    × IsOrdered (place_precedes floats SortBy.distance) answer
get_available_jobs-place_example =
    get_available_jobs-place floats base_settings nearby 10 0 two_jobs refl refl

abbrev cleaning : JobCategory
cleaning = record { name = "Cleaning"; slug = "cleaning"; is_active = true; sort_order = 1 }

-- The category is hidden, and half an hour later it is still listed.
abbrev hidden : List ShopEvent
hidden = wait 1800 ∷ edit [] ∷ request ∷ []

abbrev shop : Shop
shop = record { categories = (1, cleaning) ∷ []; cached = none; now = 100 }

abbrev name_before : String → String → Bool
name_before x y = false

still_listed :
    (list_categories name_before (history name_before hidden shop)).0 ≡ (1, cleaning) ∷ []
unfolding history list_categories active_categories sort insert_sorted
still_listed = refl
