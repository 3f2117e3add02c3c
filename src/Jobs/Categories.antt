-- ===== src/Jobs/Categories.antt =====
-- `JobCategoryViewSet` of apps/jobs/views.py: the list of categories, which the cache keeps for an hour.
-- How the database orders texts is a parameter.
use ishly_back.Prelude.{
  ℕ, ◌+◌, ◌≤◌, ◌≡◌, Bool, ◌&&◌, ◌||◌, String, Option, none, some, List, [], ◌∷◌, ◌++◌, keep, ltb,
  ◌==◌, if◌then◌else◌,
}
use ishly_back.Prelude.Table.{Table}
use ishly_back.Core.Sorting.{sort}
use ishly_back.Data.Jobs.{JobCategory}

abbrev is_shown : ℕ × JobCategory → Bool
is_shown (_, c) = c.is_active

-- The list in the cache under "job_categories", and when it goes.
pub record Cached : Type 0 where
  pub rows : Table JobCategory
  pub expires_at : ℕ

-- What the view works on: the table, which the admin pages change, the cache and the time.
pub record Shop : Type 0 where
  pub categories : Table JobCategory
  pub cached : Option Cached
  pub now : ℕ

pub data ShopEvent : Type 0 where
  request : ShopEvent
  edit : Table JobCategory → ShopEvent
  wait : ℕ → ShopEvent
  forget : ShopEvent

-- `cache.get`, which answers nothing from the expiry on
abbrev pub cache_rows : Option Cached → ℕ → Option (Table JobCategory)
cache_rows none now = none
cache_rows (some c) now = if ltb now c.expires_at then some c.rows else none

module _ (name_before : String → String → Bool) where
  -- `Meta.ordering`
  abbrev pub before : ℕ × JobCategory → ℕ × JobCategory → Bool
  before (_, x) (_, y) =
      ltb x.sort_order y.sort_order || (x.sort_order == y.sort_order && name_before x.name y.name)

  -- `JobCategory.objects.filter(is_active=True)`
  unfoldable pub active_categories : Table JobCategory → Table JobCategory
  active_categories rows = sort before (keep is_shown rows)

  abbrev pub answered : Option (Table JobCategory) → Shop → Table JobCategory × Shop
  answered (some rows) s = (rows, s)
  answered none s =
      let rows = active_categories s.categories in
      (rows, record s { cached = some (record { rows = rows; expires_at = s.now + 3600 }) })

  -- `JobCategoryViewSet.list`
  unfoldable pub list_categories : Shop → Table JobCategory × Shop
  list_categories s = answered (cache_rows s.cached s.now) s

  -- A request, a change of the table, time that passes, and a cache that drops what it has.
  abbrev pub shop_step : ShopEvent → Shop → Shop
  shop_step request s = (list_categories s).1
  shop_step (edit rows) s = record s { categories = rows }
  shop_step (wait n) s = record s { now = s.now + n }
  shop_step forget s = record s { cached = none }

  -- A history, the newest event first
  unfoldable pub history : List ShopEvent → Shop → Shop
  history [] s = s
  history (e ∷ es) s = shop_step e (history es s)

  -- At some point of a history, not long ago, these were the active categories.
  pub record WasActive (es : List ShopEvent) (s : Shop) (rows : Table JobCategory) (since : ℕ)
      : Type 0 where
    pub later : List ShopEvent
    pub earlier : List ShopEvent
    pub split : es ≡ later ++ earlier
    pub then_active : rows ≡ active_categories (history earlier s).categories
    pub recent : since ≤ (history earlier s).now

  -- What the cache holds was active an hour before it goes.
  abbrev IsHonestCache : List ShopEvent → Shop → Option Cached → Type 0
  IsHonestCache es s none = Unit
  IsHonestCache es s (some c) =
      (since : ℕ) × (c.expires_at ≡ since + 3600) × WasActive es s c.rows since
