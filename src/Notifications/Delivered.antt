-- ===== src/Notifications/Delivered.antt =====
-- Who gets what from the notification tasks.
use ishly_back.Prelude.{
  ℕ, ◌+◌, ◌≤◌, ◌≡◌, refl, Bool, ◌&&◌, String, none, List, [], ◌∷◌, length, take, keep, map, ◌==◌,
  arith, length-take, zero, suc, Option-cases, inl, inr, All, ◌-◌,
}
use ishly_back.Prelude.Table.{Table}
use ishly_back.Data.Accounts.{User}
use ishly_back.Data.Jobs.{Job}
use ishly_back.Data.Notifications.{NotificationType, DeviceToken}
use ishly_back.World.{World}
use ishly_back.Notifications.Push.{PushProvider, mock, firebase, send_to_tokens}
use ishly_back.Notifications.Inbox.{unread_count}
use ishly_back.Notifications.Service.{
  notify_workers, create_notification, create_all, send_bulk, recipients, notify_new_job,
  is_available, user_key, is_stale, deactivate, cleanup_expired_tokens,
}

-- `is_active=True`
abbrev pub is_active_device : ℕ × DeviceToken → Bool
is_active_device (_, row) = row.is_active

-- how often a user is in a list
abbrev pub times : ℕ → List ℕ → ℕ
times user users = length (keep (λ u. u == user) users)

create_all-unread :
    (kind : NotificationType) (title body : String) (users : List ℕ) (user : ℕ) (w : World)
    → unread_count user (create_all kind title body users w).notifications
      ≡ unread_count user w.notifications + times user users
unfolding create_all create_notification unread_count
create_all-unread kind title body [] user w = omega arith
create_all-unread kind title body (u ∷ users) user w =
    ground (
      arith,
      create_all-unread kind title body users user (create_notification kind title body u w),
    )

send_bulk-unread :
    (kind : NotificationType) (title body : String) (users : List ℕ) (user : ℕ) (w : World)
    → unread_count user (send_bulk kind title body users w).1.notifications
      ≡ unread_count user w.notifications + times user users
unfolding send_bulk
send_bulk-unread kind title body users user w =
    ground (arith, create_all-unread kind title body users user w)

map-length : {A B : Type 0} (f : A → B) (xs : List A) → length (map f xs) ≡ length xs
map-length f [] = refl
map-length f (x ∷ xs) = ground (arith, map-length f xs)

notify_workers-unread :
    (users : List ℕ) (job : Job) (user : ℕ) (w : World)
    → unread_count user (notify_workers users job w).notifications
      ≡ unread_count user w.notifications + times user users
notify_workers-unread [] job user w = omega arith
notify_workers-unread (u ∷ users) job user w = send_bulk-unread _ _ _ (u ∷ users) user w

-- the rows of a user who is available
abbrev pub is_available_as : ℕ → ℕ × User → Bool
is_available_as user (k, row) = k == user && is_available (k, row)

times-available :
    (user n : ℕ) (rows : Table User)
    → times user (map user_key (take n (keep is_available rows)))
      ≤ length (keep (is_available_as user) rows)
times-available user zero rows = omega arith
times-available user (suc n) [] = omega arith
times-available user (suc n) ((k, row) ∷ rows) =
    ground (arith, times-available user n rows, times-available user (suc n) rows)

-- A new job gives a user one more unread notification for every place among its recipients. These are
-- at most 500, and a user is there at most once for each row as an active worker who is not blocked,
-- so others get nothing.
pub notify_new_job-unread :
    (job : Job) (user : ℕ) (w : World)
    → (unread_count user (notify_new_job job w).notifications
        ≡ unread_count user w.notifications + times user (recipients w))
      × (length (recipients w) ≤ 500)
      × (times user (recipients w) ≤ length (keep (is_available_as user) w.users))
unfolding notify_new_job recipients
notify_new_job-unread job user w =
    let available = keep is_available w.users in
    (
      notify_workers-unread (map user_key (take 500 available)) job user w,
      omega (arith, map-length user_key (take 500 available), length-take 500 available),
      times-available user 500 w.users,
    )

length-stale :
    (cutoff : ℕ) (rows : Table DeviceToken)
    → (length (keep (is_stale cutoff) (deactivate cutoff rows)) ≡ 0)
      × (length (keep is_active_device rows)
          ≡ length (keep is_active_device (deactivate cutoff rows))
            + length (keep (is_stale cutoff) rows))
unfolding deactivate
length-stale cutoff [] = (refl, refl)
length-stale cutoff ((k, row) ∷ rows) = ground (arith, length-stale cutoff rows)

-- The monthly cleanup answers by how many the active devices become fewer, and leaves no active device
-- whose last use is more than 90 days ago, so a second one at the same time deactivates none.
pub cleanup_expired_tokens-clears :
    (w : World)
    → let (deactivated, w') = cleanup_expired_tokens w in
      (length (keep is_active_device w.device_tokens)
        ≡ length (keep is_active_device w'.device_tokens) + deactivated)
      × (length (keep (is_stale (w.now - 7776000)) w'.device_tokens) ≡ 0)
      × ((cleanup_expired_tokens w').0 ≡ 0)
unfolding cleanup_expired_tokens
cleanup_expired_tokens-clears w =
    let (cleared, fewer) = length-stale (w.now - 7776000) w.device_tokens in
    (fewer, cleared, cleared)

unused-stale :
    (cutoff : ℕ) (rows : Table DeviceToken)
    → All (λ (r : ℕ × DeviceToken). r.1.last_used_at ≡ none) rows
    → (deactivate cutoff rows ≡ rows) × (length (keep (is_stale cutoff) rows) ≡ 0)
unfolding deactivate
unused-stale cutoff [] h = (refl, refl)
unused-stale cutoff ((k, row) ∷ rows) (h, hs) = ground (arith, h, unused-stale cutoff rows hs)

-- Where no device was ever marked as used, the cleanup deactivates none.
pub cleanup_expired_tokens_unused :
    (w : World)
    → All (λ (r : ℕ × DeviceToken). r.1.last_used_at ≡ none) w.device_tokens
    → ((cleanup_expired_tokens w).0 ≡ 0)
      × ((cleanup_expired_tokens w).1.device_tokens ≡ w.device_tokens)
unfolding cleanup_expired_tokens
cleanup_expired_tokens_unused w unused =
    let (same, nothing) = unused-stale (w.now - 7776000) w.device_tokens unused in (nothing, same)

-- The successes and failures that a provider answers make up all devices, whatever Firebase does.
pub send_to_tokens-length :
    (provider : PushProvider) (tokens : List String) (title body : String)
    → let answer = send_to_tokens provider tokens title body in
      answer.success + answer.failure ≡ length tokens
unfolding send_to_tokens
send_to_tokens-length mock tokens title body = omega arith
send_to_tokens-length (firebase app) [] title body = refl
send_to_tokens-length (firebase app) (token ∷ tokens) title body =
    elim (Option-cases (app.send_each (token ∷ tokens) title body)) [
      | inl raised ↦ ground (arith, raised)
      | inr ((good, bad), answered) ↦
          ground (arith, answered, app.counts_all (token ∷ tokens) title body good bad answered)
    ]
