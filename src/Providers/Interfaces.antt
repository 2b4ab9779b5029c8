-- ===== src/Providers/Interfaces.antt =====
-- The providers as the service sees them: the interfaces of service.go that each one implements.
use procyon_modules.Base.{none, some, List}
use procyon_modules.Models.Inputs.{PaymentPriceOption}
use procyon_modules.Exec.{Exec}
use procyon_modules.Service.{Provider}
use procyon_modules.Providers.Google.{GooglePaymentProvider, google}
use procyon_modules.Providers.Google.Purchases.{
  verify_google_purchase, reconcile_google_subscription,
}
use procyon_modules.Providers.Google.Notifications.{handle_google_webhook}
use procyon_modules.Providers.Stripe.{StripePaymentProvider, stripe}
use procyon_modules.Providers.Stripe.Sales.{
  PriceCache, stripe_prices, create_stripe_checkout, create_stripe_subscription,
  cancel_stripe_subscription, create_stripe_portal,
}
use procyon_modules.Providers.Stripe.Subscriptions.{reconcile_stripe_subscription}
use procyon_modules.Providers.Stripe.Events.{handle_stripe_webhook}
use procyon_modules.Providers.Apple.{ApplePaymentProvider, apple}
use procyon_modules.Providers.Apple.Transactions.{verify_apple_purchase}
use procyon_modules.Providers.Apple.Notifications.{
  handle_apple_webhook, reconcile_apple_subscription,
}

-- The answer of `Prices` while the cache is this one; what the call leaves in the cache is that of
-- `stripe_prices`.
abbrev prices_under : StripePaymentProvider → PriceCache → Exec (List PaymentPriceOption)
prices_under p cache w = let (r, w') = stripe_prices p cache w in (r.0, w')

unfoldable pub stripe_provider : StripePaymentProvider → PriceCache → Provider
stripe_provider p cache = record {
  name = stripe;
  prices = some (prices_under p cache);
  create_checkout = some (create_stripe_checkout p);
  subscriptions = some (record {
    create_subscription = create_stripe_subscription p;
    cancel_subscription = cancel_stripe_subscription p;
  });
  create_portal = some (create_stripe_portal p);
  handle_webhook = some (handle_stripe_webhook p);
  verify_store_purchase = none;
  reconcile_subscription = some (reconcile_stripe_subscription p);
}

unfoldable pub google_provider : GooglePaymentProvider → Provider
google_provider p = record {
  name = google;
  prices = none;
  create_checkout = none;
  subscriptions = none;
  create_portal = none;
  handle_webhook = some (handle_google_webhook p);
  verify_store_purchase = some (verify_google_purchase p);
  reconcile_subscription = some (reconcile_google_subscription p);
}

unfoldable pub apple_provider : ApplePaymentProvider → Provider
apple_provider p = record {
  name = apple;
  prices = none;
  create_checkout = none;
  subscriptions = none;
  create_portal = none;
  handle_webhook = some (handle_apple_webhook p);
  verify_store_purchase = some (verify_apple_purchase p);
  reconcile_subscription = some (reconcile_apple_subscription p);
}
