-- ===== src/Data/Chat.antt =====
-- apps/chat/models.py: one room for a job, and its messages.
use ishly_back.Prelude.{ℕ, Bool, Option, String, ◌||◌, ◌==◌}

pub data MessageType : Type 0 where
  text image system : MessageType

pub record ChatRoom : Type 0 where
  pub job : ℕ
  pub employer : ℕ
  pub worker : ℕ
  pub is_active : Bool
  pub created_at : ℕ

-- `ChatRoom.is_participant`: `user in (self.employer, self.worker)`
unfoldable pub is_participant : ChatRoom → ℕ → Bool
is_participant room user = user == room.employer || user == room.worker

-- `sender` is null for a system message.
pub record Message : Type 0 where
  pub room : ℕ
  pub sender : Option ℕ
  pub message_type : MessageType
  pub content : String
  pub is_read : Bool
  pub read_at : Option ℕ
  pub created_at : ℕ
