-- ===== src/Examples/Outside.antt =====
-- Runs of pages and of notifications, and of a job as far as it goes.
use ishly_back.Prelude.{ℕ, ◌+◌, ◌≤◌, ◌≡◌, refl, true, some, [], ◌∷◌, ltb, List, arith}
use ishly_back.Core.Pages.{Page, paginate_queryset, paginate_queryset-whole, read_pages}
use ishly_back.Data.Notifications.{DeviceToken}
use ishly_back.World.{World}
use ishly_back.Jobs.Progress.{changes, changes-le}
use ishly_back.Examples.Fixtures.{exact_division, created_job, world_with}
use ishly_back.Examples.Work.{acts}

changes-le_example : changes 5 acts (world_with created_job) + 0 ≤ 3
changes-le_example = changes-le acts (world_with created_job) 5 created_job refl

paginate_queryset-whole_example :
    let queryset : List ℕ = 7 ∷ 8 ∷ 9 ∷ [] in
    (answer : Page ℕ) × (paginate_queryset exact_division queryset 2 2 ≡ some answer)
    × (answer.has_next ≡ ltb 2 answer.total_pages)
    × (read_pages exact_division queryset 2 answer.total_pages ≡ queryset)
paginate_queryset-whole_example =
    paginate_queryset-whole exact_division (7 ∷ 8 ∷ 9 ∷ []) 2 2 (omega arith) (omega arith)
      (omega arith) (omega arith)

abbrev device : DeviceToken
device = record {
  user = 2;
  token = "fcm-token";
  platform = "ios";
  is_active = true;
  last_used_at = some 10;
}

abbrev later : World
later = record (world_with created_job) {
  db = record (world_with created_job).db { device_tokens = (8, device) ∷ [] };
  now = 8_000_000;
}
