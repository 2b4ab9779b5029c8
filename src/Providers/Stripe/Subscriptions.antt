-- ===== src/Providers/Stripe/Subscriptions.antt =====
-- The subscriptions of provider_stripe.go: the row that a subscription of Stripe is kept as.
use procyon_modules.Base.{not, Option, none, some, List, [], ◌∷◌, if◌then◌else◌}
use procyon_modules.Base.Int.{is_zero}
use procyon_modules.Base.Text.{Text, bytes, is_empty}
use procyon_modules.Models.{SubscriptionStatus, PaymentSubscription, zero_subscription}
use procyon_modules.Exec.{Exec, pure, ◌>>=◌}
use procyon_modules.Config.{Product}
use procyon_modules.Store.Subscriptions.{upsert_subscription}
use procyon_modules.Providers.Calls.{Metadata, get, product_at, unix_time, first_payment_value}
use procyon_modules.Providers.Stripe.{
  StripeSubscriptionStatus, ItemPrice, SubscriptionItem, StripeSubscription, StripePaymentProvider,
  stripe,
}

abbrev pub identity_key : Text
identity_key = bytes "identity_id"

-- `stripeCustomerID`, and the id of any object behind a pointer.
abbrev pub id_of : Option Text → Text
id_of none = []
id_of (some id) = id

-- `mapStripePaymentSubscriptionStatus`
unfoldable pub map_stripe_payment_subscription_status :
    StripeSubscriptionStatus → SubscriptionStatus
map_stripe_payment_subscription_status StripeSubscriptionStatus.active = SubscriptionStatus.active
map_stripe_payment_subscription_status StripeSubscriptionStatus.trialing =
    SubscriptionStatus.trialing
map_stripe_payment_subscription_status StripeSubscriptionStatus.past_due =
    SubscriptionStatus.past_due
map_stripe_payment_subscription_status StripeSubscriptionStatus.unpaid = SubscriptionStatus.past_due
map_stripe_payment_subscription_status StripeSubscriptionStatus.canceled =
    SubscriptionStatus.canceled
map_stripe_payment_subscription_status StripeSubscriptionStatus.incomplete_expired =
    SubscriptionStatus.canceled
map_stripe_payment_subscription_status (StripeSubscriptionStatus.other text) =
    SubscriptionStatus.expired

module _ (p : StripePaymentProvider) where
  abbrev pub catalog_plan : Option Product → Text
  catalog_plan none = []
  catalog_plan (some q) = q.plan_code

  -- The plan of the first item, where that has a price.
  abbrev pub item_plan : Metadata → Option ItemPrice → Text
  item_plan metadata none = []
  item_plan metadata (some price) = first_payment_value (
      get price.metadata (bytes "plan_code")
      ∷ get metadata (bytes "plan_code")
      ∷ catalog_plan (product_at p.products price.id)
      ∷ price.id
      ∷ [])

  -- The period and the plan of the first item.
  abbrev pub with_item :
      Metadata → List (Option SubscriptionItem) → PaymentSubscription → PaymentSubscription
  with_item metadata [] model = model
  with_item metadata (none ∷ items) model = model
  with_item metadata (some item ∷ items) model = record model {
    current_period_start = unix_time item.current_period_start;
    current_period_end = unix_time item.current_period_end;
    plan_code = item_plan metadata item.price;
  }

  -- The row that a subscription of Stripe is kept as.
  unfoldable pub stripe_subscription_model : StripeSubscription → Text → PaymentSubscription
  unfolding map_stripe_payment_subscription_status product_at get first_payment_value unix_time
  stripe_subscription_model subscription identity_id =
      with_item subscription.metadata subscription.items (record zero_subscription {
        provider = stripe;
        external_subscription_id = subscription.id;
        identity_id = identity_id;
        customer_id = id_of subscription.customer;
        status = map_stripe_payment_subscription_status subscription.status;
        cancel_at_period_end = subscription.cancel_at_period_end;
        cancel_at =
            if not (is_zero subscription.cancel_at)
            then some (unix_time subscription.cancel_at)
            else none;
      })

  -- `upsertStripeSubscription`; its callers have a subscription that is not nil.
  unfoldable pub upsert_stripe_subscription : StripeSubscription → Text → Exec (Unit {0})
  unfolding stripe_subscription_model
  upsert_stripe_subscription subscription identity_id =
      if is_empty subscription.id
      then pure tt
      else upsert_subscription (stripe_subscription_model subscription identity_id)

  -- The subscription of a checkout is fetched and kept.
  unfoldable pub follow_subscription : Text → Text → Exec (Unit {0})
  unfolding upsert_stripe_subscription
  follow_subscription subscription_id identity_id =
      if is_empty subscription_id
      then pure tt
      else p.retrieve_subscription subscription_id >>= λ subscription.
          upsert_stripe_subscription subscription identity_id

  -- `ReconcileSubscription`
  unfoldable pub reconcile_stripe_subscription : PaymentSubscription → Exec (Unit {0})
  unfolding upsert_stripe_subscription
  reconcile_stripe_subscription stored = do
    subscription ← p.retrieve_subscription stored.external_subscription_id
    upsert_stripe_subscription subscription stored.identity_id
