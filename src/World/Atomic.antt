-- ===== src/World/Atomic.antt =====
-- What holds of every atomic action.
use ishly_back.Prelude.{◌≡◌, ◌⊎◌, inl, inr, refl, arith}
use ishly_back.Core.Errors.{Error}
use ishly_back.World.{World, Result, ok, err, Action, atomic}

-- An atomic action that raises has the database that it began with.
pub atomic_rollback :
    {A : Type 0} (m : Action A) (w : World) {e : Error}
    → (atomic m w).0 ≡ err e
    → (atomic m w).1.db ≡ w.db
unfolding atomic
atomic_rollback m w h = ground arith

-- A call returns or raises.
pub outcome :
    {A : Type 0} (r : Result A × World)
    → ((a : A) × (w : World) × (r ≡ (ok a, w))) ⊎ ((e : Error) × (w : World) × (r ≡ (err e, w)))
outcome (ok a, w) = inl (a, w, refl)
outcome (err e, w) = inr (e, w, refl)
