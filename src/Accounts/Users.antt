-- ===== src/Accounts/Users.antt =====
-- `UserService` of apps/accounts/services.py and `User.update_rating` of apps/accounts/models.py.
-- A rating is in hundredths. A quotient is rounded when the row is saved, by the database: half
-- units either way, so the rounding is a parameter that stays between the two nearest hundredths.
use ishly_back.Prelude.{
  ℕ, ◌+◌, ◌-◌, ◌*◌, ◌/◌, ◌≤◌, ◌<◌, Bool, true, false, not, ◌&&◌, ◌||◌, String, ◌==◌, is_key,
}
use ishly_back.Prelude.Table.{modify}
use ishly_back.Core.Errors.{Error}
use ishly_back.Data.Accounts.{User}
use ishly_back.Data.Jobs.{Job, is_completed}
use ishly_back.World.{Action, raise_if, get_or_raise, modify_db, ◌>>=◌, ◌>>◌}
use ishly_back.Jobs.Service.{find_job}

-- The nearest hundredth to a quotient, however a tie is broken.
pub record Rounding : Type 0 where
  pub round : ℕ → ℕ → ℕ
  pub floor_le : (a b : ℕ) → 0 < b → a / b ≤ round a b
  pub le_ceiling : (a b : ℕ) → 0 < b → round a b ≤ (a + (b - 1)) / b

-- `User.update_rating`
unfoldable pub update_rating : Rounding → ℕ → User → User
update_rating r new_rating user =
    let total : ℕ = user.rating * user.rating_count + new_rating in
    record user {
      rating_count = user.rating_count + 1;
      rating = r.round total (user.rating_count + 1);
    }

abbrev pub is_party : Job → ℕ → Bool
is_party job user_id = user_id == job.employer || is_key job.worker user_id

-- `UserService.rate_user`
unfoldable pub rate_user : Rounding → ℕ → ℕ → ℕ → ℕ → Action (Unit {0})
rate_user r rater target rating job_id = do
  job ← get_or_raise (find_job job_id (λ job. is_completed job.status)) Error.not_found
  raise_if (not (is_party job rater)) Error.forbidden
  raise_if (not (is_party job target)) Error.forbidden
  raise_if (rater == target) Error.validation
  modify_db (λ db. record db { users = modify target (update_rating r rating) db.users })

-- `UserService.block_user` and `unblock_user`
abbrev pub blocked : String → User → User
blocked reason user = record user { is_blocked = true; block_reason = reason; is_active = false }

unfoldable pub block_user : ℕ → String → Action (Unit {0})
block_user user_id reason =
    modify_db (λ db. record db { users = modify user_id (blocked reason) db.users })

abbrev pub unblocked : User → User
unblocked user = record user { is_blocked = false; block_reason = ""; is_active = true }

unfoldable pub unblock_user : ℕ → Action (Unit {0})
unblock_user user_id = modify_db (λ db. record db { users = modify user_id unblocked db.users })

-- `IsActiveUser` of apps/core/permissions.py
unfoldable pub is_active_user : User → Bool
is_active_user user = user.is_active && not user.is_blocked
