-- ===== src/Notifications/Service.antt =====
-- `NotificationService` of apps/notifications/services.py, and the tasks of
-- apps/notifications/tasks.py that are made of it. The helpers whose bodies do not parse, and the
-- retries of Celery, are left out; users come in the order of the table.
use Prim.Native.String.{◌++◌}
use ishly_back.Prelude.{
  ℕ, ◌+◌, ◌-◌, Bool, false, not, ◌&&◌, ◌||◌, String, Option, none, some, List, [], ◌∷◌, length,
  take, keep, map, ltb, ◌==◌, if◌then◌else◌,
}
use ishly_back.Prelude.Table.{Table, insert}
use ishly_back.Data.Accounts.{User, is_worker}
use ishly_back.Data.Jobs.{Job}
use ishly_back.Data.Notifications.{Notification, NotificationType, DeviceToken}
use ishly_back.World.{World, Effect}

-- `DeviceToken.objects.filter(user=..., is_active=True)`
abbrev pub is_device_of : ℕ → ℕ × DeviceToken → Bool
is_device_of user (_, row) = row.user == user && row.is_active

abbrev pub is_among : List ℕ → ℕ → Bool
is_among [] user = false
is_among (u ∷ users) user = u == user || is_among users user

-- `DeviceToken.objects.filter(user__in=..., is_active=True)`
abbrev pub is_device_among : List ℕ → ℕ × DeviceToken → Bool
is_device_among users (_, row) = is_among users row.user && row.is_active

abbrev pub token_of : ℕ × DeviceToken → String
token_of (_, row) = row.token

-- a push message to some devices, if there are any
abbrev pub push_to : List String → String → String → World → World
push_to [] title body w = w
push_to (token ∷ tokens) title body w = record w {
  effects = Effect.push (token ∷ tokens) title body ∷ w.effects;
}

abbrev pub new_notification : NotificationType → String → String → ℕ → Notification
new_notification kind title body user = record {
  user = user;
  notification_type = kind;
  title = title;
  body = body;
  is_read = false;
  read_at = none;
}

-- `Notification.objects.create`
unfoldable pub create_notification : NotificationType → String → String → ℕ → World → World
create_notification kind title body user w = record w {
  db = record w.db {
    next_id = w.next_id + 1;
    notifications = insert w.next_id (new_notification kind title body user) w.notifications;
  };
}

-- `_deliver_push`; what the provider answers is only logged
unfoldable pub deliver_push : ℕ → String → String → World → World
deliver_push user title body w =
    push_to (map token_of (keep (is_device_of user) w.device_tokens)) title body w

-- `NotificationService.send`
unfoldable pub send : NotificationType → String → String → Bool → ℕ → World → World
unfolding create_notification deliver_push
send kind title body send_push user w =
    let w' = create_notification kind title body user w in
    if send_push then deliver_push user title body w' else w'

-- `Notification.objects.bulk_create`
unfoldable pub create_all : NotificationType → String → String → List ℕ → World → World
unfolding create_notification
create_all kind title body [] w = w
create_all kind title body (user ∷ users) w =
    create_all kind title body users (create_notification kind title body user w)

-- `NotificationService.send_bulk`: the number of rows, and the world
unfoldable pub send_bulk : NotificationType → String → String → List ℕ → World → ℕ × World
unfolding create_all
send_bulk kind title body users w =
    let w' = create_all kind title body users w in
    let tokens = map token_of (keep (is_device_among users) w.device_tokens) in
    (length users, push_to tokens title body w')

-- `filter(role="worker", is_active=True, is_blocked=False)`
abbrev pub is_available : ℕ × User → Bool
is_available (_, user) = is_worker user && user.is_active && not user.is_blocked

abbrev pub user_key : ℕ × User → ℕ
user_key (k, _) = k

-- the first 500 of them
unfoldable pub recipients : World → List ℕ
recipients w = map user_key (take 500 (keep is_available w.users))

abbrev pub notify_workers : List ℕ → Job → World → World
notify_workers [] job w = w
notify_workers (user ∷ users) job w =
    (send_bulk NotificationType.new_job "New job available! 💼" (job.title ++ " — " ++ job.address)
      (user ∷ users) w).1

-- `NotificationService.notify_new_job`
unfoldable pub notify_new_job : Job → World → World
notify_new_job job w = notify_workers (recipients w) job w

abbrev pub used_before : ℕ → Option ℕ → Bool
used_before cutoff none = false
used_before cutoff (some at) = ltb at cutoff

-- `is_active=True, last_used_at__lt=cutoff`
abbrev pub is_stale : ℕ → ℕ × DeviceToken → Bool
is_stale cutoff (_, row) = row.is_active && used_before cutoff row.last_used_at

unfoldable pub deactivate : ℕ → Table DeviceToken → Table DeviceToken
deactivate cutoff [] = []
deactivate cutoff ((k, row) ∷ rows) =
    let rest = deactivate cutoff rows in
    if is_stale cutoff (k, row)
    then (k, record row { is_active = false }) ∷ rest
    else (k, row) ∷ rest

-- `cleanup_expired_tokens`: how many devices it deactivates, and the world; 90 days are 7776000 s.
unfoldable pub cleanup_expired_tokens : World → ℕ × World
unfolding deactivate
cleanup_expired_tokens w =
    let cutoff = w.now - 7776000 in
    (
      length (keep (is_stale cutoff) w.device_tokens),
      record w { db = record w.db { device_tokens = deactivate cutoff w.device_tokens } },
    )
