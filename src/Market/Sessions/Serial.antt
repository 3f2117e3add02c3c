-- ===== src/Market/Sessions/Serial.antt =====
-- Requests that run at the same time, against the same requests one after the other.
use ishly_back.Prelude.{
  ℕ, ◌≡◌, refl, sym, ap, ◌∙◌, inl, inr, false, not, ◌||◌, ◌&&◌, List, [], ◌∷◌, ◌++◌, arith,
  Bool-cases, Option-cases, is_some,
}
use mathlib.Core.Path.{subst}
use ishly_back.Prelude.Table.{lookup}
use ishly_back.Data.Jobs.{Job}
use ishly_back.World.{World, Env, Result, ok, err}
use ishly_back.Jobs.Status.{Act}
use ishly_back.Market.Sound.{IsSound}
use ishly_back.Market.Calls.{Call, serve, serve_all, serve_all-IsSound}
use ishly_back.Market.Sessions.{
  System, Event, begins, commits, passes, job_of, call_of, lock_job, holding, is_locked, leave,
  joined, locks_worker, step, run, done_in, in_order, locks_no_job,
}
use ishly_back.Market.Sessions.Rows.{
  Writes-IsKeyed, Adds-kept, Adds-IsKeyed, serve_act-Writes, serve-Adds,
}
use ishly_back.Market.Sessions.Steady.{
  IsSteady, HasRead, commit-serve, lock_job-keyed, others, IsApart-leave, All-leave, reads_stable,
  reads_elsewhere, lookup-HasRead,
}

-- What a step does to the world, and what it leaves to the sessions.
record Stepped (event : Event) (sys : System) : Type 0 where
  world : (step event sys).world ≡ serve_all (done_in event sys) sys.world
  steady : IsSteady (step event sys)

module _ (sys : System) (steady : IsSteady sys) where
  joined-IsSteady :
      (k : ℕ) (act : Act) (r : Result Job)
      → (lock_job act sys.world).0 ≡ r
      → is_locked (job_of act) sys.sessions ≡ false
      → ((joined k act r sys).world ≡ sys.world) × IsSteady (joined k act r sys)
  joined-IsSteady k act (err e) h free = (refl, steady)
  joined-IsSteady k act (ok job) h free = (
    refl,
    record { keyed = steady.keyed; reads = (h, steady.reads); apart = (free, steady.apart) },
  )

  begins-Stepped : (env : Env) (k : ℕ) (act : Act) → Stepped (begins env k act) sys
  unfolding step serve_all
  begins-Stepped env k act =
      elim (Bool-cases (
        is_locked (job_of act) sys.sessions
        || is_some (lookup k sys.sessions)
        || (locks_worker act && not env.locks_nullable))) [
          | inl taken ↦ record { world = rw taken refl; steady = rw taken steady }
          | inr free ↦
              let (world, joins) =
                joined-IsSteady k act (lock_job act sys.world).0 refl (ground (arith, free)) in
              record { world = rw free world; steady = rw free joins }
        ]

  commits-Stepped : (env : Env) (k : ℕ) → Stepped (commits env k) sys
  unfolding step serve_all
  commits-Stepped env k = elim (Option-cases (lookup k sys.sessions)) [
    | inl nobody ↦ record { world = ground (arith, nobody); steady = rw nobody steady }
    | inr (s, found) ↦
        let read = lookup-HasRead sys.world k sys.sessions s found steady.reads in
        let e = commit-serve env s.act s.job sys.world read in
        let writes = serve_act-Writes (holding env) sys.world s.act in
        let w' = serve (holding env) (call_of s.act) sys.world in
        record {
          world = rw found e;
          steady = rw found (
              rw e (record {
                keyed = Writes-IsKeyed (job_of s.act) sys.world w' writes steady.keyed;
                reads =
                    reads_elsewhere sys.world w' (job_of s.act) (leave k sys.sessions) writes
                      (All-leave (HasRead sys.world) k sys.sessions steady.reads)
                      (others k sys.sessions s found steady.apart);
                apart = IsApart-leave k sys.sessions steady.apart;
              }));
        }
  ]

  passes-Stepped : (env : Env) (call : Call) → Stepped (passes env call) sys
  unfolding step serve_all
  passes-Stepped env call = elim (Bool-cases (locks_no_job call)) [
    | inr locks ↦ record { world = rw locks refl; steady = rw locks steady }
    | inl whole ↦
        let adds = serve-Adds env sys.world call whole in
        let w' = serve env call sys.world in
        record {
          world = rw whole refl;
          steady = rw whole (record {
            keyed = Adds-IsKeyed sys.world w' adds steady.keyed;
            reads = reads_stable sys.world w' sys.sessions steady.reads (λ act job read.
                Adds-kept sys.world w' adds steady.keyed (job_of act)
                  (lock_job-keyed act job sys.world read steady.keyed));
            apart = steady.apart;
          });
        }
  ]

step-Stepped : (event : Event) (sys : System) → IsSteady sys → Stepped event sys
step-Stepped (begins env k act) sys steady = begins-Stepped sys steady env k act
step-Stepped (commits env k) sys steady = commits-Stepped sys steady env k
step-Stepped (passes env call) sys steady = passes-Stepped sys steady env call

serve_all-append :
    (calls more : List (Env × Call)) (w : World)
    → serve_all (calls ++ more) w ≡ serve_all more (serve_all calls w)
unfolding serve_all
serve_all-append [] more w = refl
serve_all-append ((env, call) ∷ calls) more w = serve_all-append calls more (serve env call w)

-- However the steps of requests are interleaved, from a state in which no lock is held twice, every
-- session has what its row still is and no job has a key to come, the world in the end is the one that
-- the same calls make when they run one after the other, each alone: the calls on jobs at the time when
-- they commit. At every point in between the state is such a state again.
pub run-serve_all :
    (events : List Event) (sys : System)
    → IsSteady sys
    → ((run events sys).world ≡ serve_all (in_order events sys) sys.world)
      × IsSteady (run events sys)
unfolding run in_order serve_all
run-serve_all [] sys steady = (refl, steady)
run-serve_all (event ∷ events) sys steady =
    let s = step-Stepped event sys steady in
    let (rest, last) = run-serve_all events (step event sys) s.steady in
    (
      rest
          ∙ ap (serve_all (in_order events (step event sys))) s.world
          ∙ sym (serve_all-append (done_in event sys) (in_order events (step event sys)) sys.world),
      last,
    )

-- However the steps of requests are interleaved, the books stay balanced: the database is sound after
-- them if it was sound before, from a state in which no lock is held twice, every session has what its
-- row still is and no job has a key to come.
pub run-IsSound :
    (events : List Event) (sys : System)
    → IsSteady sys
    → IsSound sys.world.db
    → IsSound (run events sys).world.db
run-IsSound events sys steady sound =
    subst (λ (w : World). IsSound w.db) (sym (run-serve_all events sys steady).0)
      (serve_all-IsSound (in_order events sys) sys.world sound)
