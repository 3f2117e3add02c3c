-- ===== src/Examples/Seeds.antt =====
-- Runs of the command that makes demo data.
use ishly_back.Chat.Signals.{create_chat_room_on_accept}
use ishly_back.Jobs.Service.{create_row}
use ishly_back.Data.Payments.{fits}
use ishly_back.Payments.Wallets.{create_transaction, save_wallet}
use ishly_back.Prelude.{refl}
use ishly_back.Scripts.SeedJobs.{price_of, status_drawn, JobDraw, seed_job}
use ishly_back.Scripts.SeedSurplus.{Unaccounted, seed_job-Unaccounted}
use ishly_back.Examples.Fixtures.{env, created_job, employer_wallet, world_with}

-- A completed job that its employer cannot pay
abbrev drawn : JobDraw
drawn = record {
  template = 1;
  category = 0;
  employer = 0;
  location = 2;
  latitude = 0;
  longitude = 0;
  price = 0;
  status = 5;
  worker = 0;
  suffix = 100;
  scheduled_in = 1;
  accepted_ago = 1;
  started_ago = 1;
  completed_ago = 1;
  cancelled_ago = 1;
}

seed_job-Unaccounted_example :
    Unaccounted 1 employer_wallet drawn
      (world_with created_job)
      (seed_job env drawn 1 2 1 (world_with created_job)).1
unfolding seed_job price_of save_wallet fits create_row create_chat_room_on_accept status_drawn
    create_transaction
seed_job-Unaccounted_example =
    seed_job-Unaccounted env drawn 1 2 1 employer_wallet (world_with created_job)
      (seed_job env drawn 1 2 1 (world_with created_job)).1 refl refl
