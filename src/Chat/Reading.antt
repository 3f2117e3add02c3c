-- ===== src/Chat/Reading.antt =====
-- Unread counts, through messages and read receipts.
use ishly_back.Prelude.{
  ℕ, ◌+◌, ◌≡◌, ◌≢◌, refl, ◌||◌, List, [], ◌∷◌, arith, ==_refl, String, Option, ◌==◌, ltb,
  if◌then◌else◌,
}
use ishly_back.Data.Chat.{Message}
use ishly_back.Core.Strip.{strip, text_length}
use ishly_back.World.{World}
use ishly_back.Chat.Rooms.{
  chat_message, read_receipt, receive, handle_chat_message, save_message, mark_messages_read,
  update_read, is_unread_by, get_unread_count, content_of,
}

-- Marking the rows of one filter leaves nothing unread in it, and nothing new in another.
unread-update_self :
    (room_id user now : ℕ) (ms : List Message)
    → get_unread_count room_id user (update_read (is_unread_by room_id user) now ms) ≡ 0
unfolding get_unread_count update_read
unread-update_self room_id user now [] = refl
unread-update_self room_id user now (m ∷ ms) =
    ground (arith, unread-update_self room_id user now ms)

unread-update_other :
    (room_id user now other_room other : ℕ) (ms : List Message)
    → other_room ≢ room_id
    → get_unread_count other_room other (update_read (is_unread_by room_id user) now ms)
      ≡ get_unread_count other_room other ms
unfolding get_unread_count update_read
unread-update_other room_id user now other_room other [] ne = refl
unread-update_other room_id user now other_room other (m ∷ ms) ne =
    ground (arith, unread-update_other room_id user now other_room other ms ne)

-- A read receipt leaves its user nothing unread in the room, and changes no count of another room.
pub read_receipt-unread :
    (room_id user other_room other : ℕ) (w : World)
    → other_room ≢ room_id
    → let w' = (receive room_id user read_receipt w).1 in
      (get_unread_count room_id user w'.messages ≡ 0)
      × (get_unread_count other_room other w'.messages
          ≡ get_unread_count other_room other w.messages)
unfolding receive mark_messages_read
read_receipt-unread room_id user other_room other w ne = (
  unread-update_self room_id user w.now w.messages,
  unread-update_other room_id user w.now other_room other w.messages ne,
)

-- A chat message whose content, without the white space around it, has 1 to 2000 characters adds one
-- to the unread count of everybody else in the room and nothing to that of its sender; any other
-- leaves the world as it is.
pub chat_message-unread :
    (room_id user other : ℕ) (content : Option String) (w : World)
    → other ≢ user
    → let n = text_length (strip (content_of content)) in
      let w' = (receive room_id user (chat_message content) w).1 in
      if (0 == n) || ltb 2000 n
      then w' ≡ w
      else (get_unread_count room_id other w'.messages
          ≡ get_unread_count room_id other w.messages + 1)
        × (get_unread_count room_id user w'.messages ≡ get_unread_count room_id user w.messages)
unfolding receive handle_chat_message save_message get_unread_count
chat_message-unread room_id user other content w ne = ground (arith, ==_refl room_id, ==_refl user)
