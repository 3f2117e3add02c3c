-- ===== src/Market/Deposits.antt =====
-- The invariant across the deposits and callbacks of apps/payments.
use ishly_back.Prelude.{ℕ, ◌+◌, ◌≡◌, sym, inl, inr, String, Option, arith}
use ishly_back.World.{World, Env, atomic}
use ishly_back.Payments.Books.{Posted-IsAudited, credited-IsConserved}
use ishly_back.Payments.Providers.{ProviderSettings, Payload, Codecs, Value}
use ishly_back.Payments.Deposits.{initiate_deposit, confirm_deposit}
use ishly_back.Payments.Webhooks.{payme_post, click_post}
use mathlib.Core.Path.{subst}
use ishly_back.Payments.Callbacks.{Confirms, payme_post-Confirms, click_post-Confirms}
use ishly_back.Payments.Confirmation.{confirm_deposit-IsConfirmation, confirm_deposit_rollback}
use ishly_back.Market.Sound.{IsSound, same-IsAudited, same-IsConserved, same-IsSound, by_outcome}
use ishly_back.Jobs.Escrow.{held-Posted}

pub initiate_deposit_frame :
    (env : Env) (providers : ProviderSettings) (hex : String) (user_id amount : ℕ) (name : String)
    (w : World)
    → let w' = (initiate_deposit env providers hex user_id amount name w).1 in
      (w'.wallets ≡ w.wallets) × (w'.transactions ≡ w.transactions) × (w'.jobs ≡ w.jobs)
unfolding initiate_deposit atomic
initiate_deposit_frame env providers hex user_id amount name w =
    (ground arith, ground arith, ground arith)

module _ (env : Env) (w : World) (s : IsSound w.db) where
  pub confirm_deposit-IsSound :
      (request_id : ℕ) (external_id : String)
      → IsSound (confirm_deposit env request_id external_id w).1.db
  confirm_deposit-IsSound request_id external_id =
      by_outcome (confirm_deposit env request_id external_id w) w s
        (λ e. confirm_deposit_rollback env request_id external_id w)
        λ tx w' h.
          let c = confirm_deposit-IsConfirmation env request_id external_id tx w w' h in
          let p = c.posted in
          record {
            audited =
                same-IsAudited c.after.db w'.db c.wallets c.transactions
                  (Posted-IsAudited p s.audited);
            conserved = same-IsConserved c.after.db w'.db c.wallets c.transactions (
                credited-IsConserved w c.after c.request.wallet c.wallet tx c.request.amount p
                  s.conserved);
            escrowed = λ u. ground (
              arith,
              s.escrowed u,
              s.escrowed c.request.wallet,
              c.wallets,
              c.jobs,
              p.world,
              p.found,
              held-Posted u c.request.wallet c.wallet
                  (λ row. record row { balance = c.wallet.balance + c.request.amount }) tx w.db
                  p.found,
            );
          }

  pub initiate_deposit-IsSound :
      (providers : ProviderSettings) (hex : String) (user_id amount : ℕ) (name : String)
      → IsSound (initiate_deposit env providers hex user_id amount name w).1.db
  unfolding initiate_deposit atomic
  initiate_deposit-IsSound providers hex user_id amount name =
      let w' = (initiate_deposit env providers hex user_id amount name w).1 in
      let (ew, et, ej) = initiate_deposit_frame env providers hex user_id amount name w in
      same-IsSound w.db w'.db ew et ej s

  -- A callback confirms one request or does nothing.
  Confirms-IsSound : (w' : World) → Confirms env w w' → IsSound w'.db
  Confirms-IsSound w' (inl same) = subst (λ (v : World). IsSound v.db) (sym same) s
  Confirms-IsSound w' (inr (request_id, e)) =
      subst (λ (v : World). IsSound v.db) (sym e) (confirm_deposit-IsSound request_id "")

  pub payme_post-IsSound :
      (providers : ProviderSettings) (codecs : Codecs) (key_of : String → Option ℕ)
      (payload : Payload) (auth_header method : String) (order_id : Value)
      → IsSound (payme_post env providers codecs key_of payload auth_header method order_id w).1.db
  payme_post-IsSound providers codecs key_of payload auth_header method order_id =
      Confirms-IsSound _
        (payme_post-Confirms env w providers codecs key_of payload auth_header method order_id)

  pub click_post-IsSound :
      (providers : ProviderSettings) (codecs : Codecs) (key_of : String → Option ℕ)
      (payload : Payload) (sign : String)
      → IsSound (click_post env providers codecs key_of payload sign w).1.db
  click_post-IsSound providers codecs key_of payload sign =
      Confirms-IsSound _ (click_post-Confirms env w providers codecs key_of payload sign)
