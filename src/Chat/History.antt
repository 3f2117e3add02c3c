-- ===== src/Chat/History.antt =====
-- `MyChatRoomsView` and `ChatRoomDetailView` of apps/chat/views.py.
use ishly_back.Prelude.{ℕ, Bool, ◌||◌, List, keep, ltb, ◌==◌}
use ishly_back.Core.Sorting.{sort}
use ishly_back.Data.Chat.{ChatRoom, Message}
use ishly_back.World.{World, Action, gets, ◌>>◌}
use ishly_back.Chat.Rooms.{get_room_or_404}

-- `Q(employer=...) | Q(worker=...)`
abbrev pub is_room_of : ℕ → ℕ × ChatRoom → Bool
is_room_of user (_, room) = room.employer == user || room.worker == user

abbrev newer_room : ℕ × ChatRoom → ℕ × ChatRoom → Bool
newer_room (_, x) (_, y) = ltb y.created_at x.created_at

-- `MyChatRoomsView.get`
unfoldable pub my_rooms : ℕ → World → List (ℕ × ChatRoom)
my_rooms user w = sort newer_room (keep (is_room_of user) w.rooms)

-- `filter(room=...)`
abbrev pub is_in_room : ℕ → Message → Bool
is_in_room room_id m = m.room == room_id

-- `ChatRoomDetailView.get`, newest first
unfoldable pub room_history : ℕ → ℕ → Action (List Message)
room_history room_id user = do
  get_room_or_404 room_id user
  gets (λ w. keep (is_in_room room_id) w.messages)
