-- ===== src/Jobs/Room.antt =====
-- The chat room of an accepted job.
use ishly_back.Prelude.{
  ℕ, ◌+◌, ◌≤◌, ◌≡◌, ◌≢◌, refl, inl, inr, true, false, [], ◌∷◌, ◌==◌, arith, Option-cases,
  Bool-cases, ==_refl, if◌then◌else◌,
}
use ishly_back.Prelude.Table.{Table, lookup}
use ishly_back.Data.Accounts.{User}
use ishly_back.Data.Jobs.{Job}
use ishly_back.Data.Chat.{ChatRoom}
use ishly_back.World.{World, Env, ok, atomic}
use ishly_back.Chat.Signals.{create_chat_room_on_accept, get_or_create_room, open_room, has_room}
use ishly_back.Jobs.Service.{accept_job, save_job, accepted_by}
use ishly_back.Jobs.Outcome.{save_job-ok}

-- How many rooms a job has.
abbrev pub room_count : ℕ → Table ChatRoom → ℕ
room_count job [] = 0
room_count job ((_, room) ∷ rooms) =
    let rest = room_count job rooms in if room.job == job then rest + 1 else rest

no_room : (job : ℕ) (rooms : Table ChatRoom) → has_room job rooms ≡ false → room_count job rooms ≡ 0
unfolding has_room
no_room job [] h = refl
no_room job ((_, room) ∷ rooms) h = ground (arith, no_room job rooms)

some_room :
    (job : ℕ) (rooms : Table ChatRoom) → has_room job rooms ≡ true → room_count job rooms ≡ 0 → ⊥
unfolding has_room
some_room job [] h e = absurd (ground arith)
some_room job ((_, room) ∷ rooms) h e = ground (arith, some_room job rooms)

-- The rooms after an acceptance was saved
saved_rooms :
    (env : Env) (job_id user_id now : ℕ) (job : Job) (w : World) (other : ℕ)
    → room_count job_id w.rooms ≤ 1
    → let w' = (save_job env job_id (accepted_by user_id now) job w).1 in
      (room_count job_id w'.rooms ≡ (if env.receiver_alive then 1 else room_count job_id w.rooms))
      × (other ≢ job_id → room_count other w'.rooms ≡ room_count other w.rooms)
unfolding save_job create_chat_room_on_accept get_or_create_room open_room
saved_rooms env job_id user_id now job w other one = elim (Bool-cases (has_room job_id w.rooms)) [
  | inl present ↦ (ground (arith, some_room job_id w.rooms present), ground arith)
  | inr absent ↦ (
    ground (arith, no_room job_id w.rooms absent, ==_refl job_id),
    ground (arith, ==_refl job_id),
  )
]

-- After an acceptance that returned, the job has exactly one room, if it had at most one before and
-- the receiver still exists; where the receiver is gone, none is opened. Other jobs keep theirs.
pub accept_job_room :
    (env : Env) (job_id user_id other : ℕ) (worker : User) (job' : Job) (w w' : World)
    → room_count job_id w.rooms ≤ 1
    → other ≢ job_id
    → accept_job env job_id user_id worker w ≡ (ok job', w')
    → (room_count job_id w'.rooms ≡ (if env.receiver_alive then 1 else room_count job_id w.rooms))
      × (room_count other w'.rooms ≡ room_count other w.rooms)
unfolding accept_job atomic
accept_job_room env job_id user_id other worker job' w w' one ne h =
    elim (Option-cases (lookup job_id w.jobs)) [
      | inl missing ↦ absurd (ground arith)
      | inr (job, found) ↦
          let (here, there) = saved_rooms env job_id user_id w.now job w other one in
          (
            ground (arith, here, save_job-ok env job_id (accepted_by user_id w.now) job w),
            ground (arith, there ne, save_job-ok env job_id (accepted_by user_id w.now) job w),
          )
    ]
