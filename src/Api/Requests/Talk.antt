-- ===== src/Api/Requests/Talk.antt =====
-- A message that was sent over HTTP, and who reads it.
use ishly_back.Prelude.{ℕ, ◌≡◌, ◌≢◌, true, false, String, none, some, ◌∷◌, keep, arith}
use ishly_back.Prelude.Table.{lookup}
use ishly_back.Core.Errors.{Error}
use ishly_back.Core.Strip.{strip}
use ishly_back.Data.Accounts.{User}
use ishly_back.Data.Chat.{ChatRoom, Message, MessageType, is_participant}
use ishly_back.World.{World, ok, err}
use ishly_back.Chat.Rooms.{get_room_or_404, save_message}
use ishly_back.Chat.History.{is_in_room, room_history}
use ishly_back.Api.Requests.{fits_text, message_view}

abbrev pub text_message : ℕ → ℕ → String → ℕ → Message
text_message room_id user_id content now = record {
  room = room_id;
  sender = some user_id;
  message_type = MessageType.text;
  content = content;
  is_read = false;
  read_at = none;
  created_at = now;
}

-- When a participant of a room sends a message of 1 to 2000 characters, not counting the white space
-- around them, the answer is a 201, and every participant then reads that message, without that white
-- space, before all that was there; another user reads nothing, and other rooms stay as they were.
pub message_view-room_history :
    (room_id user_id reader other_id other_room : ℕ) (content : String) (user : User)
    (room : ChatRoom) (w : World)
    → lookup room_id w.rooms ≡ some room
    → is_participant room user_id ≡ true
    → is_participant room reader ≡ true
    → is_participant room other_id ≡ false
    → other_room ≢ room_id
    → fits_text 2000 (strip content) ≡ true
    → let (status, w') = message_view room_id content user_id user w in
      (status ≡ 201)
      × (room_history room_id reader w' ≡ (
        ok (
            text_message room_id user_id (strip content) w.now
            ∷ keep (is_in_room room_id) w.messages),
        w',
      ))
      × (room_history room_id other_id w' ≡ (err Error.forbidden, w'))
      × (keep (is_in_room other_room) w'.messages ≡ keep (is_in_room other_room) w.messages)
unfolding message_view room_history get_room_or_404 save_message
message_view-room_history room_id user_id reader other_id other_room content user room w found sends
      reads stranger elsewhere fits =
    (
      ground (arith, found, sends, fits),
      ground (arith, found, sends, fits, reads),
      ground (arith, found, sends, fits, stranger),
      ground (arith, found, sends, fits, elsewhere),
    )
