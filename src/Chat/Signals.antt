-- ===== src/Chat/Signals.antt =====
-- `create_chat_room_on_accept` of apps/chat/signals.py, the receiver of `post_save` on jobs. Django
-- holds a receiver by a weak reference, so whether it still runs is a part of the environment.
use ishly_back.Prelude.{
  ℕ, ◌+◌, Bool, true, false, not, ◌&&◌, Option, none, some, [], ◌∷◌, ◌==◌, if◌then◌else◌,
}
use ishly_back.Prelude.Table.{Table, insert}
use Prim.Native.String.{◌++◌}
use ishly_back.Data.Jobs.{Job, is_accepted}
use ishly_back.Data.Chat.{ChatRoom, MessageType}
use ishly_back.World.{Db, Env, Action, pure, modify_db}

-- `ChatRoom.objects.get(job=...)`, which has one room at most
unfoldable pub has_room : ℕ → Table ChatRoom → Bool
has_room job [] = false
has_room job ((_, room) ∷ rooms) = if room.job == job then true else has_room job rooms

-- The new room under the next key, and the system message that opens it.
unfoldable pub open_room : ℕ → Job → ℕ → ℕ → Db → Db
open_room job_id job worker now db = record db {
  next_id = db.next_id + 2;
  rooms =
      insert db.next_id
        (record {
          job = job_id;
          employer = job.employer;
          worker = worker;
          is_active = true;
          created_at = now;
        })
        db.rooms;
  messages =
      (record {
        room = db.next_id;
        sender = none;
        message_type = MessageType.system;
        content = "Job \"" ++ job.title ++ "\" accepted. You can now chat with each other.";
        is_read = false;
        read_at = none;
        created_at = now;
      })
      ∷ db.messages;
}

-- `ChatRoom.objects.get_or_create`, and the message only for a room that is new
unfoldable pub get_or_create_room : ℕ → Job → ℕ → Action (Unit {0})
get_or_create_room job_id job worker w =
    if has_room job_id w.rooms
    then (pure tt w)
    else (modify_db (open_room job_id job worker w.now) w)

abbrev with_worker : ℕ → Job → Option ℕ → Action (Unit {0})
with_worker job_id job none = pure tt
with_worker job_id job (some worker) = get_or_create_room job_id job worker

unfoldable pub create_chat_room_on_accept : Env → ℕ → Job → Bool → Action (Unit {0})
create_chat_room_on_accept env job_id job created =
    if env.receiver_alive && not created && is_accepted job.status
    then with_worker job_id job job.worker
    else pure tt
