-- ===== src/Service/Checkout/Entitled.antt =====
-- `CreateSubscription` of service.go for an identity that has an active subscription.
use procyon_modules.Base.{◌≡◌, refl, Bool, true, ◌⊎◌, inl, inr, not, [], ◌∷◌, ltb}
use procyon_modules.Base.Text.{Text}
use procyon_modules.Models.Errors.{Sentinel, Error, sentinel, database}
use procyon_modules.Models.Inputs.{PaymentSubscriptionCheckoutInput}
use procyon_modules.Exec.{Result, ok, err, World, Exec, ◌>>=◌, from, time_now}
use procyon_modules.Exec.Results.{require}
use procyon_modules.Exec.Rules.{at_statement}
use procyon_modules.Store.Table.{count}
use procyon_modules.Store.Subscriptions.{has_active_subscription, is_current}
use procyon_modules.Service.{PaymentSystemService, validate_return_urls}
use procyon_modules.Service.Rules.{at_bind_from, invalid_return_url}
use procyon_modules.Service.Checkout.{create_subscription}

-- The call has failed, by one of the service's errors or the driver's, and has neither changed a
-- table nor been counted as a request to a provider.
unfoldable pub Declines : World → Result Text × World → Type 0
Declines w (ok url, w') = ⊥
Declines w (err e, w') =
    ((e ≡ sentinel Sentinel.invalid_return_url)
      ⊎ ((e ≡ sentinel Sentinel.subscription_active) ⊎ ((text : Text) × (e ≡ database text))))
    × (w'.db ≡ w.db)
    × (w'.metrics ≡ w.metrics)

module _ (w : World) where
  declined_url : (e : Error) → e ≡ sentinel Sentinel.invalid_return_url → Declines w (err e, w)
  unfolding Declines
  declined_url e h = (inl h, refl, refl)

  -- What the query for active subscriptions answers, and the rest of the call.
  declined_active :
      (identity_id : Text) (rest : Unit {0} → Exec Text)
      → ltb 0 (count (is_current identity_id w.clock) w.db.subscriptions.rows) ≡ true
      → Declines w (
          (has_active_subscription identity_id >>= λ active.
          from (require (not active) (sentinel Sentinel.subscription_active)) >>= rest)
            w)
  unfolding has_active_subscription Declines ◌>>=◌ time_now
  declined_active identity_id rest h =
      at_statement after_query
        (λ db. (ltb 0 (count (is_current identity_id w.clock) db.subscriptions.rows), db)) w
        (λ text e. (inr (inr (text, refl)), refl, refl)) (λ e. rw h (inr (inl refl), refl, refl))
    where
      after_query : Result Bool × World → Type 0
      after_query r = Declines w (elim r.0 [
        | ok active ↦
            (from (require (not active) (sentinel Sentinel.subscription_active)) >>= rest) r.1
        | err e ↦ (err e, r.1)
      ])

-- An identity with a subscription that is ACTIVE or TRIALING and whose period is not over gets no
-- second one: `CreateSubscription` fails, with "already active" unless a return URL is not allowed
-- or the driver fails, changes no table, and calls no provider.
pub active_subscription-Declines :
    (s : PaymentSystemService) (identity_id email : Text) (input : PaymentSubscriptionCheckoutInput)
    (w : World)
    → ltb 0 (count (is_current identity_id w.clock) w.db.subscriptions.rows) ≡ true
    → Declines w (create_subscription s identity_id email input w)
unfolding create_subscription
active_subscription-Declines s identity_id email input w h =
    at_bind_from (Declines w) (validate_return_urls s (input.success_url ∷ input.cancel_url ∷ [])) _
      w (λ e v. declined_url w e (invalid_return_url s _ e v))
      λ u v. declined_active w identity_id _ h
