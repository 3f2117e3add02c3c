-- ===== src/Jobs/Discovery/Listing.antt =====
-- What `JobDiscoveryService.get_available_jobs` answers, against the list of all jobs that fit.
use ishly_back.Prelude.{
  ◌≡◌, ◌∙◌, true, false, Option, none, some, keep, arith, refl, Bool, not, ◌&&◌, ◌||◌, String, List,
  [], ◌∷◌, ltb, ℕ, if◌then◌else◌, ap, sym,
}
use mathlib.Core.Path.{subst}
use text.Mathlib.Text.{◌==◌ as str_eq}
use ishly_back.Prelude.Table.{Table, lookup}
use ishly_back.Core.Geo.{FloatOps, bounding_box, haversine_distance}
use ishly_back.Core.Sorting.{IsOrdered, SameRows, sort-IsOrdered, count-sort, count}
use ishly_back.Data.Jobs.{Double, Job, JobStatus, JobCategory}
use ishly_back.World.{World, Settings}
use ishly_back.Jobs.Discovery.{
  SortBy, JobFilter, Found, is_offered, is_near, search_radius, with_distance, without_distance,
  newer, nearer, place_order, list_order, get_available_jobs, in_box, nearer_km, by_place,
}

abbrev is_open : JobStatus → Bool
is_open JobStatus.created = true
is_open JobStatus.accepted = false
is_open JobStatus.in_progress = false
is_open JobStatus.completed = false
is_open JobStatus.cancelled = false

abbrev has_name : String → Option JobCategory → Bool
has_name slug none = false
has_name slug (some category) = str_eq category.slug slug

-- an empty slug asks for nothing
abbrev in_category : Table JobCategory → Option String → ℕ → Bool
in_category categories none k = true
in_category categories (some slug) k = str_eq slug "" || has_name slug (lookup k categories)

abbrev too_cheap : Option ℕ → ℕ → Bool
too_cheap none price = false
too_cheap (some bound) price = ltb price bound

abbrev too_dear : Option ℕ → ℕ → Bool
too_dear none price = false
too_dear (some bound) price = ltb bound price

-- What a client is promised of a listed job: it is open, has the category that is asked for, if any, and
-- a price within the bounds that are given.
abbrev pub is_wanted : Table JobCategory → JobFilter → ℕ × Job → Bool
is_wanted categories f (_, job) =
    is_open job.status
    && in_category categories f.category job.category
    && not (too_cheap f.min_price job.price)
    && not (too_dear f.max_price job.price)

-- The order of a list without a place: the first row has to stand before the second.
abbrev pub precedes : SortBy → Found → Found → Bool
precedes SortBy.created_down x y = ltb y.job.created_at x.job.created_at
precedes SortBy.created_up x y = ltb x.job.created_at y.job.created_at
precedes SortBy.price_down x y = ltb y.job.price x.job.price
precedes SortBy.price_up x y = ltb x.job.price y.job.price
precedes SortBy.distance x y = ltb y.job.created_at x.job.created_at

abbrev is_less : FloatOps → Option Double → Option Double → Bool
is_less fl (some a) (some b) = fl.lt a b
is_less fl (some a) none = false
is_less fl none b = false

-- The order of a list with a place
abbrev pub place_precedes : FloatOps → SortBy → Found → Found → Bool
place_precedes fl SortBy.distance x y = is_less fl x.distance_km y.distance_km
place_precedes fl SortBy.created_down x y = ltb x.job.created_at y.job.created_at
place_precedes fl SortBy.created_up x y = ltb y.job.created_at x.job.created_at
place_precedes fl SortBy.price_down x y = ltb x.job.created_at y.job.created_at
place_precedes fl SortBy.price_up x y = ltb y.job.created_at x.job.created_at

-- The radius of a search: that of the settings, if none or 0 is given
abbrev radius_of : FloatOps → Settings → Option Double → Double
radius_of fl s none = fl.of_nat s.default_search_radius_km
radius_of fl s (some km) = if fl.is_zero km then fl.of_nat s.default_search_radius_km else km

-- A job within the box around the place and not further away than the radius
abbrev pub is_around : FloatOps → Settings → JobFilter → Double → Double → ℕ × Job → Bool
is_around fl s f lat lon (_, job) =
    let radius = radius_of fl s f.radius_km in
    let box = bounding_box fl lat lon radius in
    (fl.le box.lat_min job.latitude
      && fl.le job.latitude box.lat_max
      && fl.le box.lon_min job.longitude
      && fl.le job.longitude box.lon_max)
    && fl.le (haversine_distance fl lat lon job.latitude job.longitude) radius

-- the rows of an answer, with the rounded distance of each
abbrev pub with_km : FloatOps → Double → Double → List (ℕ × Job) → List Found
with_km fl lat lon [] = []
with_km fl lat lon ((k, job) ∷ rows) =
    record {
      key = k;
      job = job;
      distance_km = some (fl.round (haversine_distance fl lat lon job.latitude job.longitude));
    }
    ∷ with_km fl lat lon rows

-- the rows of an answer, without a distance
abbrev pub plain_rows : List (ℕ × Job) → List Found
plain_rows [] = []
plain_rows ((k, job) ∷ rows) = record { key = k; job = job; distance_km = none } ∷ plain_rows rows

keep_same :
    {A : Type 0} (p q : A → Bool) → ((x : A) → p x ≡ q x) → (xs : List A) → keep p xs ≡ keep q xs
keep_same p q e [] = refl
keep_same p q e (x ∷ xs) = rw (e x) (rw (keep_same p q e xs) refl)

is_offered-wanted :
    (categories : Table JobCategory) (f : JobFilter) (row : ℕ × Job)
    → is_offered categories f row ≡ is_wanted categories f row
unfolding is_offered
is_offered-wanted categories f (k, job) = grind arith

search_radius-of :
    (fl : FloatOps) (s : Settings) (km : Option Double) → search_radius fl s km ≡ radius_of fl s km
search_radius-of fl s none = refl
search_radius-of fl s (some km) = refl

is_near-around :
    (fl : FloatOps) (s : Settings) (f : JobFilter) (lat lon : Double) (row : ℕ × Job)
    → is_near fl lat lon (search_radius fl s f.radius_km) row ≡ is_around fl s f lat lon row
unfolding is_near in_box
is_near-around fl s f lat lon (k, job) = rw (search_radius-of fl s f.radius_km) refl

with_distance-km :
    (fl : FloatOps) (lat lon : Double) (rows : List (ℕ × Job))
    → with_distance fl lat lon rows ≡ with_km fl lat lon rows
unfolding with_distance
with_distance-km fl lat lon [] = refl
with_distance-km fl lat lon ((k, job) ∷ rows) = rw (with_distance-km fl lat lon rows) refl

without_distance-rows : (rows : List (ℕ × Job)) → without_distance rows ≡ plain_rows rows
unfolding without_distance
without_distance-rows [] = refl
without_distance-rows ((k, job) ∷ rows) = rw (without_distance-rows rows) refl

nearer-asym : (fl : FloatOps) (x y : Found) → nearer fl x y ≡ true → nearer fl y x ≡ false
nearer-asym fl x y h = go x.distance_km y.distance_km h
  where
    go :
        (a b : Option Double)
        → nearer fl (record x { distance_km = a }) (record y { distance_km = b }) ≡ true
        → nearer fl (record y { distance_km = b }) (record x { distance_km = a }) ≡ false
    go none b k = absurd (ground arith)
    go (some a) none k = absurd (ground arith)
    go (some a) (some b) k = fl.lt_asym a b k

place_order-asym :
    (fl : FloatOps) (s : SortBy) (x y : Found)
    → place_order fl s x y ≡ true
    → place_order fl s y x ≡ false
place_order-asym fl SortBy.distance x y h = nearer-asym fl x y h
place_order-asym fl SortBy.created_down x y h = ground arith
place_order-asym fl SortBy.created_up x y h = ground arith
place_order-asym fl SortBy.price_down x y h = ground arith
place_order-asym fl SortBy.price_up x y h = ground arith

list_order-asym : (s : SortBy) (x y : Found) → list_order s x y ≡ true → list_order s y x ≡ false
list_order-asym SortBy.distance x y h = ground arith
list_order-asym SortBy.created_down x y h = ground arith
list_order-asym SortBy.created_up x y h = ground arith
list_order-asym SortBy.price_down x y h = ground arith
list_order-asym SortBy.price_up x y h = ground arith

precedes_same : (o : SortBy) (x y : Found) → list_order o x y ≡ precedes o x y
precedes_same SortBy.created_down x y = refl
precedes_same SortBy.created_up x y = refl
precedes_same SortBy.price_down x y = refl
precedes_same SortBy.price_up x y = refl
precedes_same SortBy.distance x y = refl

km_same : (fl : FloatOps) (a b : Option Double) → nearer_km fl a b ≡ is_less fl a b
km_same fl none b = refl
km_same fl (some a) none = refl
km_same fl (some a) (some b) = refl

place_precedes_same :
    (fl : FloatOps) (o : SortBy) (x y : Found) → place_order fl o x y ≡ place_precedes fl o x y
place_precedes_same fl SortBy.created_down x y = refl
place_precedes_same fl SortBy.created_up x y = refl
place_precedes_same fl SortBy.price_down x y = refl
place_precedes_same fl SortBy.price_up x y = refl
place_precedes_same fl SortBy.distance x y = km_same fl x.distance_km y.distance_km

IsOrdered-same :
    (p q : Found → Found → Bool)
    → ((x y : Found) → p x y ≡ q x y)
    → (rows : List Found) → IsOrdered p rows
    → IsOrdered q rows
IsOrdered-same p q e [] ordered = tt
IsOrdered-same p q e (x ∷ []) ordered = (tt, tt)
IsOrdered-same p q e (x ∷ y ∷ rows) (head, ordered) =
    (sym (e y x) ∙ head, IsOrdered-same p q e (y ∷ rows) ordered)

pair_same :
    {a b c d : Option Double}
    → a ≡ b
    → c ≡ d
    → ◌≡◌ {A = Option Double × Option Double} (a, c) (b, d)
pair_same e f = rw e (rw f refl)

-- Without a place, the answer holds exactly the jobs that are open, have the category that is asked for
-- and a price within the bounds, each as often as the table has it, in the order that is asked for: the
-- newest or the oldest first, or the dearest or the cheapest first; the key "distance" gives the newest
-- first.
pub get_available_jobs-list :
    (fl : FloatOps) (s : Settings) (f : JobFilter) (w : World)
    → f.lat ≡ none
    → let answer = get_available_jobs fl s f w in
      SameRows answer (plain_rows (keep (is_wanted w.categories f) w.jobs))
      × IsOrdered (precedes f.sort_by) answer
unfolding get_available_jobs
get_available_jobs-list fl s f w nowhere =
    let kept = keep_same _ _ (is_offered-wanted w.categories f) w.jobs in
    let rows = keep (is_offered w.categories f) w.jobs in
    subst
      (λ (o : Option Double).
        SameRows (by_place fl s f o f.lon rows)
          (plain_rows (keep (is_wanted w.categories f) w.jobs))
        × IsOrdered (precedes f.sort_by) (by_place fl s f o f.lon rows))
      (sym nowhere)
      (
        λ p.
            count-sort (list_order f.sort_by) p _
            ∙ ap (count p) (
                without_distance-rows (keep (is_offered w.categories f) w.jobs)
                ∙ ap plain_rows kept),
        IsOrdered-same _ _ (precedes_same f.sort_by) _
            (sort-IsOrdered (list_order f.sort_by) (list_order-asym f.sort_by) _),
      )

-- With a place, the answer holds exactly the jobs that are open, have the category that is asked for and
-- a price within the bounds, and lie within the box around the place and within the radius, each as often
-- as the table has it and with its distance. They are ordered by distance if that is asked for; else the
-- keys that start with a dash give the oldest first and the others the newest first, also those that ask
-- for an order by price. The radius is that of the settings if none or 0 is given.
pub get_available_jobs-place :
    (fl : FloatOps) (s : Settings) (f : JobFilter) (lat lon : Double) (w : World)
    → f.lat ≡ some lat
    → f.lon ≡ some lon
    → let answer = get_available_jobs fl s f w in
      SameRows answer (
        with_km fl lat lon
          (keep (is_around fl s f lat lon) (keep (is_wanted w.categories f) w.jobs)))
      × IsOrdered (place_precedes fl f.sort_by) answer
unfolding get_available_jobs
get_available_jobs-place fl s f lat lon w at_lat at_lon =
    let kept = keep_same _ _ (is_offered-wanted w.categories f) w.jobs in
    let near = keep_same _ _ (is_near-around fl s f lat lon) in
    let rows = keep (is_offered w.categories f) w.jobs in
    let wanted = keep (is_wanted w.categories f) w.jobs in
    subst
      (λ (o : Option Double × Option Double).
        SameRows (by_place fl s f o.0 o.1 rows)
          (with_km fl lat lon (keep (is_around fl s f lat lon) wanted))
        × IsOrdered (place_precedes fl f.sort_by) (by_place fl s f o.0 o.1 rows))
      (pair_same (sym at_lat) (sym at_lon))
      (
        λ p.
            count-sort (place_order fl f.sort_by) p _
            ∙ count-sort newer p _
            ∙ ap (count p) (
                with_distance-km fl lat lon _
                ∙ ap (with_km fl lat lon) (
                    near (keep (is_offered w.categories f) w.jobs)
                    ∙ ap (keep (is_around fl s f lat lon)) kept)),
        IsOrdered-same _ _ (place_precedes_same fl f.sort_by) _
            (sort-IsOrdered (place_order fl f.sort_by) (place_order-asym fl f.sort_by) _),
      )
