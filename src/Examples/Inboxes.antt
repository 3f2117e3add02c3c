-- ===== src/Examples/Inboxes.antt =====
-- Runs of the chat and of the notification inbox.
use ishly_back.Prelude.{ℕ, ◌+◌, ◌≡◌, refl, true, false, none, some, [], ◌∷◌, keep, arith}
use ishly_back.Prelude.Table.{Table}
use ishly_back.Data.Notifications.{Notification, NotificationType}
use ishly_back.World.{World, ok, err}
use ishly_back.Data.Chat.{ChatRoom, is_participant, Message, MessageType}
use ishly_back.Chat.Rooms.{chat_message, receive, get_unread_count}
use ishly_back.Core.Strip.{is_space, lstrip, rstrip, strip, text_length}
use ishly_back.Chat.Reading.{chat_message-unread}
use ishly_back.Core.Errors.{Error}
use ishly_back.Data.Accounts.{UserRole}
use ishly_back.Chat.History.{is_in_room, room_history}
use ishly_back.Api.Requests.{message_view}
use ishly_back.Api.Requests.Talk.{text_message, message_view-room_history}
use ishly_back.Examples.Fixtures.{empty_world, user_of}

abbrev greeting : Message
greeting = record {
  room = 8;
  sender = none;
  message_type = MessageType.system;
  content = "You can now chat with each other.";
  is_read = false;
  read_at = none;
  created_at = 90;
}

abbrev talk : World
talk = record empty_world { db = record empty_world.db { messages = greeting ∷ [] } }

chat_message-unread_example :
    let w' = (receive 8 1 (chat_message (some " Hello ")) talk).1 in
    (get_unread_count 8 2 w'.messages ≡ 1 + 1) × (get_unread_count 8 1 w'.messages ≡ 1)
unfolding text_length strip rstrip lstrip is_space get_unread_count
chat_message-unread_example = chat_message-unread 8 1 2 (some " Hello ") talk (omega arith)

abbrev note : ℕ → Notification
note user = record {
  user = user;
  notification_type = NotificationType.new_job;
  title = "New job available!";
  body = "Move a sofa";
  is_read = false;
  read_at = none;
}

abbrev inbox : Table Notification
inbox = (3, note 2) ∷ (2, note 1) ∷ (1, note 2) ∷ []

abbrev room : ChatRoom
room = record { job = 5; employer = 1; worker = 2; is_active = true; created_at = 90 }

abbrev chatting : World
chatting = record talk { db = record talk.db { rooms = (8, room) ∷ [] } }

message_view-room_history_example :
    let (status, w') = message_view 8 " Hello " 1 (user_of UserRole.employer) chatting in
    (status ≡ 201)
    × (room_history 8 2 w' ≡ (ok (text_message 8 1 "Hello" 100 ∷ greeting ∷ []), w'))
    × (room_history 8 3 w' ≡ (err Error.forbidden, w'))
    × (keep (is_in_room 9) w'.messages ≡ [])
unfolding is_participant text_length strip rstrip lstrip is_space
message_view-room_history_example =
    message_view-room_history 8 1 2 3 9 " Hello " (user_of UserRole.employer) room chatting refl
      refl refl refl (omega arith) refl
