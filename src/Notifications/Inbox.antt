-- ===== src/Notifications/Inbox.antt =====
-- The inbox: apps/notifications/views.py and `Notification.mark_read` of
-- apps/notifications/models.py.
use ishly_back.Prelude.{
  ℕ, Bool, true, not, ◌&&◌, Option, none, some, [], ◌∷◌, length, keep, ◌==◌, if◌then◌else◌,
}
use ishly_back.Prelude.Table.{Table, lookup, modify}
use ishly_back.Core.Errors.{Error}
use ishly_back.Data.Notifications.{Notification}
use ishly_back.World.{Result, ok, err}

-- `filter(user=..., is_read=False)`
abbrev pub is_unread_of : ℕ → ℕ × Notification → Bool
is_unread_of user (_, n) = n.user == user && not n.is_read

abbrev pub is_of : ℕ → ℕ × Notification → Bool
is_of user (_, n) = n.user == user

-- `NotificationListView.get`, for a table that is newest first
unfoldable pub list_notifications : ℕ → Bool → Table Notification → Table Notification
list_notifications user unread rows =
    if unread then keep (is_unread_of user) rows else keep (is_of user) rows

-- `UnreadCountView.get`
unfoldable pub unread_count : ℕ → Table Notification → ℕ
unread_count user rows = length (keep (is_unread_of user) rows)

-- `Notification.mark_read`
abbrev pub mark_read : ℕ → Notification → Notification
mark_read now n = if n.is_read then n else record n { is_read = true; read_at = some now }

-- `Notification.objects.get(id=..., user=...)`
abbrev pub find_own : ℕ → Option Notification → Option Notification
find_own user none = none
find_own user (some n) = if n.user == user then some n else none

-- `MarkNotificationReadView.post`
unfoldable pub mark_notification_read :
    ℕ → ℕ → ℕ → Table Notification → Result (Unit {0}) × Table Notification
mark_notification_read user notification_id now rows =
    elim (find_own user (lookup notification_id rows)) [
      | none ↦ (err Error.not_found, rows)
      | some _ ↦ (ok tt, modify notification_id (mark_read now) rows)
    ]

-- the `update` of `MarkAllReadView.post`
unfoldable pub read_all : ℕ → ℕ → Table Notification → Table Notification
read_all user now [] = []
read_all user now ((k, n) ∷ rows) =
    let rest = read_all user now rows in
    (k, if is_unread_of user (k, n) then record n { is_read = true; read_at = some now } else n)
    ∷ rest

-- `MarkAllReadView.post`: the number of rows that it answers, and the rows
unfoldable pub mark_all_read : ℕ → ℕ → Table Notification → ℕ × Table Notification
mark_all_read user now rows = (length (keep (is_unread_of user) rows), read_all user now rows)
