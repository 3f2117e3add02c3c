-- ===== src/Jobs/Discovery.antt =====
-- `JobDiscoveryService` of apps/jobs/services.py, the query that it takes (`JobFilterSerializer` of
-- apps/jobs/serializers.py), and the lists of apps/jobs/views.py. Rows that a database sort leaves
-- equal are taken in the order of the table.
pub mod Listing
pub mod Mine
use text.Mathlib.Text.{◌==◌ as str_eq}
use ishly_back.Prelude.{
  ℕ, ◌+◌, Bool, true, false, not, ◌&&◌, ◌||◌, String, Option, none, some, List, [], ◌∷◌, keep, ltb,
  leb, ◌==◌, is_some, if◌then◌else◌,
}
use ishly_back.Prelude.Table.{Table, lookup}
use ishly_back.Core.Geo.{FloatOps, Box, haversine_distance, bounding_box}
use ishly_back.Core.Sorting.{sort}
use ishly_back.Data.Jobs.{Double, Job, JobCategory, is_created}
use ishly_back.World.{World, Settings}

-- The choices of `sort_by`; the serializer lets no other text through.
pub data SortBy : Type 0 where
  created_down created_up price_down price_up distance : SortBy

-- the validated query of `JobFilterSerializer`
pub record JobFilter : Type 0 where
  pub lat : Option Double
  pub lon : Option Double
  pub radius_km : Option Double
  pub category : Option String
  pub min_price : Option ℕ
  pub max_price : Option ℕ
  pub sort_by : SortBy

-- A row of the answer; `distance_km` is there after a search by place.
pub record Found : Type 0 where
  pub key : ℕ
  pub job : Job
  pub distance_km : Option Double

-- `if category_slug: filter(category__slug=...)`
abbrev pub has_slug : Table JobCategory → Option String → Job → Bool
has_slug categories none job = true
has_slug categories (some slug) job =
    if str_eq slug "" then true else elim (lookup job.category categories) [
      | none ↦ false
      | some category ↦ str_eq category.slug slug
    ]

abbrev pub at_least : Option ℕ → ℕ → Bool
at_least none price = true
at_least (some bound) price = leb bound price

abbrev pub at_most : Option ℕ → ℕ → Bool
at_most none price = true
at_most (some bound) price = leb price bound

-- The filters before the search by place
unfoldable pub is_offered : Table JobCategory → JobFilter → ℕ × Job → Bool
is_offered categories f (_, job) =
    is_created job.status
    && has_slug categories f.category job
    && at_least f.min_price job.price
    && at_most f.max_price job.price

-- `radius_km or settings.DEFAULT_SEARCH_RADIUS_KM`
abbrev pub search_radius : FloatOps → Settings → Option Double → Double
search_radius fl s none = fl.of_nat s.default_search_radius_km
search_radius fl s (some radius_km) =
    if fl.is_zero radius_km then fl.of_nat s.default_search_radius_km else radius_km

unfoldable pub in_box : FloatOps → Box → ℕ × Job → Bool
in_box fl box (_, job) =
    fl.le box.lat_min job.latitude
    && fl.le job.latitude box.lat_max
    && fl.le box.lon_min job.longitude
    && fl.le job.longitude box.lon_max

abbrev pub distance_to : FloatOps → Double → Double → Job → Double
distance_to fl lat lon job = haversine_distance fl lat lon job.latitude job.longitude

-- The rows within the box and then within the radius
unfoldable pub is_near : FloatOps → Double → Double → Double → ℕ × Job → Bool
unfolding in_box
is_near fl lat lon radius (k, job) =
    in_box fl (bounding_box fl lat lon radius) (k, job) && fl.le (distance_to fl lat lon job) radius

-- the loop over `jobs_list`
unfoldable pub with_distance : FloatOps → Double → Double → List (ℕ × Job) → List Found
with_distance fl lat lon [] = []
with_distance fl lat lon ((k, job) ∷ rows) =
    record { key = k; job = job; distance_km = some (fl.round (distance_to fl lat lon job)) }
    ∷ with_distance fl lat lon rows

unfoldable pub without_distance : List (ℕ × Job) → List Found
without_distance [] = []
without_distance ((k, job) ∷ rows) =
    record { key = k; job = job; distance_km = none } ∷ without_distance rows

abbrev pub older : Found → Found → Bool
older x y = ltb x.job.created_at y.job.created_at

abbrev pub newer : Found → Found → Bool
newer x y = ltb y.job.created_at x.job.created_at

abbrev cheaper : Found → Found → Bool
cheaper x y = ltb x.job.price y.job.price

abbrev dearer : Found → Found → Bool
dearer x y = ltb y.job.price x.job.price

abbrev pub nearer_km : FloatOps → Option Double → Option Double → Bool
nearer_km fl (some a) (some b) = fl.lt a b
nearer_km fl (some a) none = false
nearer_km fl none b = false

abbrev pub nearer : FloatOps → Found → Found → Bool
nearer fl x y = nearer_km fl x.distance_km y.distance_km

-- Which of two rows stands first after a search by place: nearest first, or by time, where the order
-- is reversed unless the key starts with a dash.
abbrev pub place_order : FloatOps → SortBy → Found → Found → Bool
place_order fl SortBy.distance = nearer fl
place_order fl SortBy.created_down = older
place_order fl SortBy.created_up = newer
place_order fl SortBy.price_down = older
place_order fl SortBy.price_up = newer

-- Which stands first otherwise: `order_by`, or the order of the model.
abbrev pub list_order : SortBy → Found → Found → Bool
list_order SortBy.created_down = newer
list_order SortBy.created_up = older
list_order SortBy.price_down = dearer
list_order SortBy.price_up = cheaper
list_order SortBy.distance = newer

abbrev pub near_jobs :
    FloatOps → Settings → JobFilter → Double → Double → List (ℕ × Job) → List Found
near_jobs fl s f lat lon rows =
    let radius = search_radius fl s f.radius_km in
    sort (place_order fl f.sort_by)
      (sort newer (with_distance fl lat lon (keep (is_near fl lat lon radius) rows)))

abbrev plain_jobs : JobFilter → List (ℕ × Job) → List Found
plain_jobs f rows = sort (list_order f.sort_by) (without_distance rows)

abbrev pub by_place :
    FloatOps → Settings → JobFilter → Option Double → Option Double → List (ℕ × Job) → List Found
by_place fl s f (some lat) (some lon) rows = near_jobs fl s f lat lon rows
by_place fl s f (some lat) none rows = plain_jobs f rows
by_place fl s f none lon rows = plain_jobs f rows

-- `JobDiscoveryService.get_available_jobs`
unfoldable pub get_available_jobs : FloatOps → Settings → JobFilter → World → List Found
get_available_jobs fl s f w = by_place fl s f f.lat f.lon (keep (is_offered w.categories f) w.jobs)

abbrev truthy : FloatOps → Option Double → Bool
truthy fl none = false
truthy fl (some x) = not (fl.is_zero x)

abbrev wants_distance : SortBy → Bool
wants_distance SortBy.distance = true
wants_distance SortBy.created_down = false
wants_distance SortBy.created_up = false
wants_distance SortBy.price_down = false
wants_distance SortBy.price_up = false

-- `attrs["min_price"] > attrs["max_price"]`, if both are there and not 0
abbrev crossed : Option ℕ → Option ℕ → Bool
crossed (some lo) (some hi) = not (lo == 0) && not (hi == 0) && ltb hi lo
crossed (some lo) none = false
crossed none hi = false

-- `JobFilterSerializer.validate`
unfoldable pub validate_filter : FloatOps → JobFilter → Bool
validate_filter fl f =
    not (wants_distance f.sort_by && not (truthy fl f.lat && truthy fl f.lon))
    && not (crossed f.min_price f.max_price)

-- `JobViewSet.list`: the answer before its paging, and none for a query that is refused
unfoldable pub list_jobs : FloatOps → Settings → JobFilter → World → Option (List Found)
unfolding validate_filter get_available_jobs
list_jobs fl s f w = if validate_filter fl f then some (get_available_jobs fl s f w) else none
