-- ===== src/Notifications/Reading.antt =====
-- What reading does to the inbox of its user and to those of others.
use ishly_back.Prelude.{ℕ, ◌≡◌, ◌≢◌, refl, inl, inr, false, true, [], ◌∷◌, arith, Option-cases}
use ishly_back.Prelude.Table.{Table, lookup, modify, lookup-modify_self}
use ishly_back.Data.Notifications.{Notification}
use ishly_back.World.{ok}
use ishly_back.Notifications.Inbox.{
  unread_count, list_notifications, mark_read, mark_notification_read, read_all, mark_all_read,
}

unread-read_all :
    (user now : ℕ) (rows : Table Notification) → unread_count user (read_all user now rows) ≡ 0
unfolding unread_count read_all
unread-read_all user now [] = refl
unread-read_all user now ((k, n) ∷ rows) = ground (arith, unread-read_all user now rows)

list-read_all :
    (user now other : ℕ) (unread : _) (rows : Table Notification)
    → other ≢ user
    → list_notifications other unread (read_all user now rows)
      ≡ list_notifications other unread rows
unfolding list_notifications read_all
list-read_all user now other false [] ne = refl
list-read_all user now other true [] ne = refl
list-read_all user now other false ((k, n) ∷ rows) ne =
    ground (arith, list-read_all user now other false rows ne)
list-read_all user now other true ((k, n) ∷ rows) ne =
    ground (arith, list-read_all user now other true rows ne)

-- Marking all as read answers how many of the user's notifications were unread, leaves none unread,
-- and changes neither list of any other user.
pub mark_all_read-clears :
    (user now other : ℕ) (rows : Table Notification)
    → other ≢ user
    → let (count, rows') = mark_all_read user now rows in
      (count ≡ unread_count user rows)
      × (unread_count user rows' ≡ 0)
      × (list_notifications other true rows' ≡ list_notifications other true rows)
      × (list_notifications other false rows' ≡ list_notifications other false rows)
unfolding mark_all_read unread_count
mark_all_read-clears user now other rows ne = (
  refl,
  unread-read_all user now rows,
  list-read_all user now other true rows ne,
  list-read_all user now other false rows ne,
)

mark_read_twice :
    (k now later : ℕ) (rows : Table Notification)
    → modify k (mark_read later) (modify k (mark_read now) rows) ≡ modify k (mark_read now) rows
mark_read_twice k now later [] = refl
mark_read_twice k now later ((j, n) ∷ rows) = ground (arith, mark_read_twice k now later rows)

-- Marking a notification as read again, at any later time, succeeds and changes nothing: the time at
-- which it was first read stays.
pub mark_notification_read_again :
    (user k now later : ℕ) (rows rows' : Table Notification)
    → mark_notification_read user k now rows ≡ (ok tt, rows')
    → mark_notification_read user k later rows' ≡ (ok tt, rows')
unfolding mark_notification_read
mark_notification_read_again user k now later rows rows' h = elim (Option-cases (lookup k rows)) [
  | inl missing ↦ absurd (ground arith)
  | inr (n, found) ↦
      ground
        (arith, lookup-modify_self k (mark_read now) rows found, mark_read_twice k now later rows)
]
