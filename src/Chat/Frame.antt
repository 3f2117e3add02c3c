-- ===== src/Chat/Frame.antt =====
-- What the receiver on jobs of apps/chat/signals.py leaves alone.
use ishly_back.Prelude.{ℕ, Bool, ◌≡◌, ◌≤◌, arith}
use ishly_back.Data.Jobs.{Job}
use ishly_back.World.{World, Env, ok}
use ishly_back.Chat.Signals.{create_chat_room_on_accept, get_or_create_room, open_room}

-- What no chat code changes, and that keys are only taken.
pub record SameBooks (w w' : World) : Type 0 where
  pub users : w'.users ≡ w.users
  pub wallets : w'.wallets ≡ w.wallets
  pub transactions : w'.transactions ≡ w.transactions
  pub payment_requests : w'.payment_requests ≡ w.payment_requests
  pub jobs : w'.jobs ≡ w.jobs
  pub telegram_otps : w'.telegram_otps ≡ w.telegram_otps
  pub effects : w'.effects ≡ w.effects
  pub now : w'.now ≡ w.now
  pub more : w.next_id ≤ w'.next_id

module _ (env : Env) (job_id : ℕ) (job : Job) (created : Bool) (w : World) where
  pub create_chat_room_on_accept-ok :
      (create_chat_room_on_accept env job_id job created w).0 ≡ ok tt
  unfolding create_chat_room_on_accept get_or_create_room
  create_chat_room_on_accept-ok = ground arith

  pub create_chat_room_on_accept-SameBooks :
      SameBooks w (create_chat_room_on_accept env job_id job created w).1
  unfolding create_chat_room_on_accept get_or_create_room open_room
  create_chat_room_on_accept-SameBooks = ground arith
