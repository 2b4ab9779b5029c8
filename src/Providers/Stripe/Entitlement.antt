-- ===== src/Providers/Stripe/Entitlement.antt =====
-- What a subscription of Stripe entitles to, once it has been kept.
use procyon_modules.Base.{
  ℕ, ◌≡◌, refl, sym, ap, ◌∙◌, Bool, true, false, ◌&&◌, Option, none, some, List, [], ◌∷◌, ltb,
}
use procyon_modules.Base.Text.{Text, ◌==◌, is_empty}
use procyon_modules.Models.{Time, PaymentSubscription}
use procyon_modules.Exec.{ok, World}
use procyon_modules.Store.Subscriptions.{
  is_entitling, is_current, upsert_subscription, merged, created,
}
use procyon_modules.Store.Subscriptions.Upsert.{
  subscription_of, HasSubscriptions, upserted, upserted_found,
}
use procyon_modules.Providers.Calls.{Metadata, unix_time}
use procyon_modules.Providers.Stripe.{
  StripeSubscriptionStatus, SubscriptionItem, StripeSubscription, StripePaymentProvider, stripe,
}
use procyon_modules.Providers.Stripe.Subscriptions.{
  with_item, map_stripe_payment_subscription_status, stripe_subscription_model,
  upsert_stripe_subscription,
}

-- Does Stripe give access under this status?
abbrev pub grants : StripeSubscriptionStatus → Bool
grants StripeSubscriptionStatus.active = true
grants StripeSubscriptionStatus.trialing = true
grants _ = false

-- The end of the period that has been paid for; Go's zero time where no item tells it.
abbrev pub paid_until : List (Option SubscriptionItem) → Time
paid_until [] = 0
paid_until (none ∷ items) = 0
paid_until (some item ∷ items) = unix_time item.current_period_end

mapped_status :
    (s : StripeSubscriptionStatus)
    → is_entitling (map_stripe_payment_subscription_status s) ≡ grants s
unfolding map_stripe_payment_subscription_status
mapped_status StripeSubscriptionStatus.active = refl
mapped_status StripeSubscriptionStatus.trialing = refl
mapped_status StripeSubscriptionStatus.past_due = refl
mapped_status StripeSubscriptionStatus.unpaid = refl
mapped_status StripeSubscriptionStatus.canceled = refl
mapped_status StripeSubscriptionStatus.incomplete_expired = refl
mapped_status (StripeSubscriptionStatus.other text) = refl

-- The columns that the item does not touch, and the end of the period.
abbrev Keeps : PaymentSubscription → Time → PaymentSubscription → Type 0
Keeps m until r =
    (r.provider ≡ m.provider)
    × (r.external_subscription_id ≡ m.external_subscription_id)
    × (r.status ≡ m.status)
    × (r.current_period_end ≡ until)

with_item-Keeps :
    (p : StripePaymentProvider) (metadata : Metadata) (items : List (Option SubscriptionItem))
    (m : PaymentSubscription)
    → m.current_period_end ≡ 0
    → Keeps m (paid_until items) (with_item p metadata items m)
with_item-Keeps p metadata [] m h = (refl, refl, refl, h)
with_item-Keeps p metadata (none ∷ items) m h = (refl, refl, refl, h)
with_item-Keeps p metadata (some item ∷ items) m h = (refl, refl, refl, refl)

upserted_columns :
    (now : Time) (id : ℕ) (s : PaymentSubscription) (o : Option PaymentSubscription)
    → ((upserted now id s o).status ≡ s.status)
      × ((upserted now id s o).current_period_end ≡ s.current_period_end)
unfolding upserted merged created
upserted_columns now id s none = (refl, refl)
upserted_columns now id s (some r) = (refl, refl)

-- The row entitles its owner while Stripe gives access and the period that has been paid lasts.
abbrev pub Tracks : StripeSubscription → PaymentSubscription → Type 0
Tracks s r =
    (identity_id : Text) (now : Time)
    → is_current identity_id now r
      ≡ (r.identity_id == identity_id && (grants s.status && ltb now (paid_until s.items)))

module _ (p : StripePaymentProvider) (s : StripeSubscription) (identity_id : Text) where
  abbrev model : PaymentSubscription
  model = stripe_subscription_model p s identity_id

  pub model_columns :
      (model.provider ≡ stripe)
      × (model.external_subscription_id ≡ s.id)
      × (model.status ≡ map_stripe_payment_subscription_status s.status)
      × (model.current_period_end ≡ paid_until s.items)
  unfolding stripe_subscription_model
  model_columns = with_item-Keeps p s.metadata s.items _ refl

  upserted-Tracks :
      (now : Time) (id : ℕ) (o : Option PaymentSubscription) → Tracks s (upserted now id model o)
  unfolding is_current
  upserted-Tracks now id o who at =
      let (status, until) = upserted_columns now id model o in
      rw (status, until, model_columns.2, model_columns.3, mapped_status s.status) refl

  kept :
      (w w' : World)
      → is_empty s.id ≡ false
      → upsert_stripe_subscription p s identity_id w ≡ (ok tt, w')
      → upsert_subscription model w ≡ (ok tt, w')
  unfolding upsert_stripe_subscription
  kept w w' named h = rw named at h

  -- Where the upsert of one of Stripe's subscriptions returns, its row entitles its owner, at every
  -- time, exactly if Stripe has it as active or on trial and the period of its first item is not
  -- over.
  pub upsert_stripe_subscription-Tracks :
      (w w' : World)
      → HasSubscriptions w.db
      → is_empty s.id ≡ false
      → upsert_stripe_subscription p s identity_id w ≡ (ok tt, w')
      → (r : PaymentSubscription) × (subscription_of stripe s.id w'.db ≡ some r) × Tracks s r
  upsert_stripe_subscription-Tracks w w' v named h =
      let o = subscription_of model.provider model.external_subscription_id w.db in
      let found = upserted_found model w w' v (kept w w' named h) in
      (
        upserted w.clock w.db.subscriptions.next_id model o,
        ap (λ a. subscription_of a s.id w'.db) (sym model_columns.0)
            ∙ ap (λ b. subscription_of model.provider b w'.db) (sym model_columns.1)
            ∙ found,
        upserted-Tracks w.clock w.db.subscriptions.next_id o,
      )
