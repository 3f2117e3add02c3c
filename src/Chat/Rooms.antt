-- ===== src/Chat/Rooms.antt =====
-- The chat of a room: apps/chat/views.py, `get_unread_count` of apps/chat/serializers.py, and the
-- consumer of apps/chat/consumers.py.
use ishly_back.Prelude.{
  ℕ, Bool, true, false, not, ◌&&◌, String, Option, none, some, List, [], ◌∷◌, length, keep, ltb,
  ◌==◌, is_key, if◌then◌else◌,
}
use ishly_back.Prelude.Table.{lookup}
use ishly_back.Core.Errors.{Error}
use ishly_back.Data.Chat.{ChatRoom, Message, MessageType, is_participant}
use ishly_back.Core.Strip.{text_length, strip}
use ishly_back.World.{World, Action, pure, raise_if, get_or_raise, gets, modify_db, ◌>>=◌, ◌>>◌}

-- `SendMessageView._get_room_or_404`
unfoldable pub get_room_or_404 : ℕ → ℕ → Action ChatRoom
get_room_or_404 room_id user = do
  room ← get_or_raise (λ w. lookup room_id w.rooms) Error.not_found
  raise_if (not (is_participant room user)) Error.forbidden
  pure room

-- `Message.objects.create` with a sender
unfoldable pub save_message : ℕ → ℕ → String → Action (Unit {0})
save_message room_id user content = do
  now ← gets (λ w. w.now)
  modify_db (λ db. record db {
    messages =
        (record {
          room = room_id;
          sender = some user;
          message_type = MessageType.text;
          content = content;
          is_read = false;
          read_at = none;
          created_at = now;
        })
        ∷ db.messages;
  })

-- `filter(room=..., is_read=False).exclude(sender=user)`, which keeps system messages
abbrev pub is_unread_by : ℕ → ℕ → Message → Bool
is_unread_by room_id user m = m.room == room_id && not m.is_read && not (is_key m.sender user)

-- `ChatRoomSerializer.get_unread_count`
unfoldable pub get_unread_count : ℕ → ℕ → List Message → ℕ
get_unread_count room_id user messages = length (keep (is_unread_by room_id user) messages)

-- `update(is_read=True, read_at=timezone.now())` on the rows of a filter
unfoldable pub update_read : (Message → Bool) → ℕ → List Message → List Message
update_read p now [] = []
update_read p now (m ∷ ms) =
    let rest = update_read p now ms in
    (if p m then record m { is_read = true; read_at = some now } else m) ∷ rest

-- `ChatConsumer._mark_messages_read`
unfoldable pub mark_messages_read : ℕ → ℕ → Action (Unit {0})
mark_messages_read room_id user = do
  now ← gets (λ w. w.now)
  modify_db (λ db. record db { messages = update_read (is_unread_by room_id user) now db.messages })

-- What becomes of a connection.
pub data Connection : Type 0 where
  closed : ℕ → Connection
  joined : ChatRoom → Connection

-- `ChatConsumer._get_room`
abbrev pub active_room : ℕ → World → Option ChatRoom
active_room room_id w = elim (lookup room_id w.rooms) [
  | none ↦ none
  | some room ↦ if room.is_active then some room else none
]

-- the check of the room, for a user that is known
abbrev pub join : ℕ → Option ChatRoom → Connection
join user none = closed 4003
join user (some room) = if is_participant room user then joined room else closed 4003

-- `ChatConsumer.connect`; there is no user where the token was not valid
unfoldable pub connect : Option ℕ → ℕ → World → Connection
connect none room_id w = closed 4001
connect (some user) room_id w = join user (active_room room_id w)

-- What a client sends: a text that is not JSON, or an object with its "type". A chat message has
-- a "content" or not.
pub data ClientFrame : Type 0 where
  empty invalid_json : ClientFrame
  chat_message : Option String → ClientFrame
  typing : Bool → ClientFrame
  read_receipt : ClientFrame
  unknown_type : ClientFrame

-- What the members of the room get, or the sender alone in case of an error.
pub data Event : Type 0 where
  message_sent : ℕ → String → Event
  user_typing : ℕ → Bool → Event
  user_read : ℕ → Event
  error : String → Event

abbrev pub content_of : Option String → String
content_of none = ""
content_of (some content) = content

-- `ChatConsumer.handle_chat_message`, from the stripped content on
unfoldable pub handle_chat_message : ℕ → ℕ → String → World → List Event × World
handle_chat_message room_id user content w =
    if text_length content == 0
    then ([], w)
    else if ltb 2000 (text_length content)
    then (error "Message too long (max 2000 chars)" ∷ [], w)
    else (message_sent user content ∷ [], (save_message room_id user content w).1)

-- `ChatConsumer.receive`, for a user that joined the room
unfoldable pub receive : ℕ → ℕ → ClientFrame → World → List Event × World
receive room_id user empty w = ([], w)
receive room_id user invalid_json w = (error "Invalid JSON" ∷ [], w)
receive room_id user (chat_message content) w =
    handle_chat_message room_id user (strip (content_of content)) w
receive room_id user (typing is_typing) w = (user_typing user is_typing ∷ [], w)
receive room_id user read_receipt w = (user_read user ∷ [], (mark_messages_read room_id user w).1)
receive room_id user unknown_type w = ([], w)
