-- ===== src/Api/Requests/Safety.antt =====
-- The invariant and the money of a user across HTTP requests.
use ishly_back.Prelude.{
  ℕ, ◌≡◌, ◌≢◌, refl, sym, inl, inr, false, none, some, List, [], ◌∷◌, All, arith, Option-cases,
}
use mathlib.Core.Path.{subst}
use ishly_back.Prelude.Table.{lookup}
use ishly_back.World.{World}
use ishly_back.Accounts.Auth.{create_user_wallet}
use ishly_back.Market.Sound.{IsSound, same-IsSound}
use ishly_back.Market.Logins.{create_user_wallet-IsSound}
use ishly_back.Market.Calls.{Call, serve-IsSound}
use ishly_back.Market.Funds.{Retains, is_completion_by, serve-Retains}
use ishly_back.Api.Access.{Requester}
use ishly_back.Api.Requests.{Site, Request, handle}
use ishly_back.Api.Requests.Reach.{Reaches, aside, opens, calls, IsFor, handle-Reaches}

-- One request that arrives at a time.
pub record Arrival : Type 0 where
  pub site : Site
  pub who : Requester
  pub time : ℕ
  pub request : Request

-- the world after one request, and after one another
unfoldable pub receive : Arrival → World → World
receive a w = (handle a.site a.who a.request (record w { now = a.time })).1

unfoldable pub receive_all : List Arrival → World → World
receive_all [] w = w
receive_all (a ∷ arrivals) w = receive_all arrivals (receive a w)

Reaches-IsSound :
    (site : Site) (who : Requester) (w w' : World)
    → Reaches site who w w'
    → IsSound w.db
    → IsSound w'.db
Reaches-IsSound site who w w' (aside same) s =
    same-IsSound w.db w'.db same.wallets same.transactions same.jobs s
Reaches-IsSound site who w w' (opens user_id e) s =
    subst (λ (v : World). IsSound v.db) (sym e) (create_user_wallet-IsSound user_id w s)
Reaches-IsSound site who w w' (calls call v same own e) s =
    subst (λ (u : World). IsSound u.db) (sym e)
      (serve-IsSound site.env call v
        (same-IsSound w.db v.db same.wallets same.transactions same.jobs s))

-- From a sound database (the ledger chained to the balances, no money made or lost, wallets holding
-- what open jobs cost), the database stays sound under any HTTP requests of the kinds in `Request`, by
-- anybody and in any order.
pub receive_all-IsSound :
    (arrivals : List Arrival) (w : World) → IsSound w.db → IsSound (receive_all arrivals w).db
unfolding receive_all receive
receive_all-IsSound [] w s = s
receive_all-IsSound (a ∷ arrivals) w s = receive_all-IsSound arrivals (receive a w) (
    Reaches-IsSound a.site a.who (record w { now = a.time }) _
      (handle-Reaches a.site a.who a.request (record w { now = a.time })) s)

-- the request is not made by the user `v`
abbrev pub IsByOther : ℕ → Requester → Type 0
IsByOther v none = Unit
IsByOther v (some (user_id, user)) = user_id ≢ v

not_completed :
    (v : ℕ) (who : Requester) (call : Call)
    → IsByOther v who
    → IsFor who call
    → is_completion_by v call ≡ false
not_completed v none (Call.complete job_id user_id user) other own = absurd (ground arith)
not_completed v (some (k, row)) (Call.complete job_id user_id user) other own = ground arith
not_completed v who (Call.login _ _) other own = refl
not_completed v who (Call.create _ _ _) other own = refl
not_completed v who (Call.accept _ _ _) other own = refl
not_completed v who (Call.start _ _) other own = refl
not_completed v who (Call.cancel _ _ _) other own = refl
not_completed v who (Call.initiate _ _ _ _ _) other own = refl
not_completed v who (Call.payme _ _ _ _ _ _ _) other own = refl
not_completed v who (Call.click _ _ _ _ _) other own = refl
not_completed v who (Call.tick _) other own = refl

opened-Retains : (v user_id : ℕ) (w : World) → Retains v w (create_user_wallet user_id w).1
unfolding create_user_wallet
opened-Retains v user_id w = elim (Option-cases (lookup user_id w.wallets)) [
  | inl absent ↦ ground (arith, absent)
  | inr (row, there) ↦ ground (arith, there)
]

Reaches-Retains :
    (site : Site) (who : Requester) (v : ℕ) (w w' : World)
    → Reaches site who w w'
    → IsByOther v who
    → Retains v w w'
Reaches-Retains site who v w w' (aside same) other = ground (arith, same.wallets)
Reaches-Retains site who v w w' (opens user_id e) other =
    ground (arith, e, opened-Retains v user_id w)
Reaches-Retains site who v w w' (calls call u same own e) other =
    ground
      (arith, e, same.wallets, serve-Retains site.env v call u (not_completed v who call other own))

-- However many requests of the kinds in `Request` others make, none takes money from a user: what a wallet has,
-- available and held together, does not fall while its user makes no request.
pub receive_all-Retains :
    (v : ℕ) (arrivals : List Arrival) (w : World)
    → All (λ (a : Arrival). IsByOther v a.who) arrivals
    → Retains v w (receive_all arrivals w)
unfolding receive_all receive
receive_all-Retains v [] w _ = omega arith
receive_all-Retains v (a ∷ arrivals) w (other, others) =
    let one =
      Reaches-Retains a.site a.who v (record w { now = a.time }) _
        (handle-Reaches a.site a.who a.request (record w { now = a.time })) other in
    omega (arith, one, receive_all-Retains v arrivals (receive a w) others)
