-- ===== src/Payments/Callbacks.antt =====
-- What the callbacks of apps/payments/views.py can do to the world.
use ishly_back.Prelude.{
  ℕ, ◌≡◌, ◌⊎◌, refl, inl, inr, ◌&&◌, String, Option, none, some, arith, Bool-cases, Option-cases,
}
use text.Mathlib.Text.{◌==◌ as str_eq}
use ishly_back.World.{World, Env, Action, Result, ok, err, pure, ◌>>◌}
use ishly_back.Payments.Providers.{
  PaymentProvider, ProviderSettings, Payload, Codecs, Value, missing, number, string, is_truthy,
  verify_webhook, get_payment_provider,
}
use ishly_back.Payments.Deposits.{confirm_deposit}
use ishly_back.Payments.Webhooks.{
  Reply, for_provider, confirm_order, answer, payme_post, click_post, handle_payme_method,
  is_confirm,
}

-- Nothing, or the confirmation of one deposit request.
abbrev pub Confirms : Env → World → World → Type 0
Confirms env w w' = (w' ≡ w) ⊎ ((request_id : ℕ) × (w' ≡ (confirm_deposit env request_id "" w).1))

then_pure : {A : Type 0} (m : Action A) (w : World) → ((do m; pure tt) w).1 ≡ (m w).1
then_pure m w = ground arith

-- The `try` of a callback keeps the world.
answer-world : (r : Result (Unit {0}) × World) → (answer r).1 ≡ r.1
answer-world (ok _, w) = refl
answer-world (err _, w) = refl

module _ (env : Env) (w : World) where
  confirm_order-Confirms :
      (key_of : String → Option ℕ) (order_id : Value)
      → Confirms env w (confirm_order env key_of order_id w).1
  confirm_order-Confirms key_of missing = inl refl
  confirm_order-Confirms key_of (number n) = inr (n, then_pure (confirm_deposit env n "") w)
  confirm_order-Confirms key_of (string t) = elim (Option-cases (key_of t)) [
    | inl unknown ↦ inl (rw (unknown, confirm_order) refl)
    | inr (n, known) ↦ inr (n, rw (known, confirm_order) (then_pure (confirm_deposit env n "") w))
  ]

  handle_payme_method-Confirms :
      (key_of : String → Option ℕ) (method : String) (order_id : Value)
      → Confirms env w (handle_payme_method env key_of method order_id w).1
  unfolding handle_payme_method
  handle_payme_method-Confirms key_of method order_id =
      elim (Bool-cases (str_eq method "PerformTransaction")) [
        | inr other ↦ rw other (inl refl)
        | inl perform ↦ rw perform (elim (Bool-cases (is_truthy order_id)) [
          | inr absent ↦ rw absent (inl refl)
          | inl given ↦ rw given (confirm_order-Confirms key_of order_id)
        ])
      ]

  for_provider-Confirms :
      (provider : Option PaymentProvider) (handler : PaymentProvider → World → Reply × World)
      → ((p : PaymentProvider) → Confirms env w (handler p w).1)
      → Confirms env w (for_provider provider handler w).1
  for_provider-Confirms none handler all = inl refl
  for_provider-Confirms (some p) handler all = all p

  pub payme_post-Confirms :
      (providers : ProviderSettings) (codecs : Codecs) (key_of : String → Option ℕ)
      (payload : Payload) (auth_header method : String) (order_id : Value)
      → Confirms env w
          (payme_post env providers codecs key_of payload auth_header method order_id w).1
  unfolding payme_post
  payme_post-Confirms providers codecs key_of payload auth_header method order_id =
      for_provider-Confirms (get_payment_provider providers "payme") _ λ provider.
        elim (Bool-cases (verify_webhook codecs provider payload auth_header)) [
          | inr forged ↦ rw forged (inl refl)
          | inl genuine ↦ rw genuine (
              rw (answer-world (handle_payme_method env key_of method order_id w))
                (handle_payme_method-Confirms key_of method order_id))
        ]

  pub click_post-Confirms :
      (providers : ProviderSettings) (codecs : Codecs) (key_of : String → Option ℕ)
      (payload : Payload) (sign : String)
      → Confirms env w (click_post env providers codecs key_of payload sign w).1
  unfolding click_post
  click_post-Confirms providers codecs key_of payload sign =
      for_provider-Confirms (get_payment_provider providers "click") _ λ provider.
        elim (Bool-cases (verify_webhook codecs provider payload sign)) [
          | inr forged ↦ rw forged (inl refl)
          | inl genuine ↦
              rw genuine
                (elim (Bool-cases
                  (is_confirm payload.action && is_truthy payload.merchant_trans_id)) [
                    | inr other ↦ rw other (inl refl)
                    | inl confirm ↦ rw confirm (
                        rw (answer-world (confirm_order env key_of payload.merchant_trans_id w))
                          (confirm_order-Confirms key_of payload.merchant_trans_id))
                  ])
        ]
