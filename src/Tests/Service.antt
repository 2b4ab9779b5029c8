-- ===== src/Tests/Service.antt =====
-- The service on concrete providers.
use procyon_modules.Base.{◌≡◌, refl, true, none, some, [], ◌∷◌, ltb}
use procyon_modules.Base.Text.{bytes, ◌==◌, trim_space, to_lower, normalized}
use procyon_modules.Models.{SubscriptionStatus}
use procyon_modules.Models.Inputs.{PaymentCheckoutInput, PaymentSubscriptionCheckoutInput}
use procyon_modules.Models.Errors.{message}
use procyon_modules.Exec.{ok, err, World, from, ◌>>=◌}
use procyon_modules.Store.Table.{count, find}
use procyon_modules.Store.Keyed.{is_key}
use procyon_modules.Config.{product, contains_provider}
use procyon_modules.Store.Subscriptions.{is_current}
use procyon_modules.Service.{
  PaymentSystemService, Provider, lookup, validate_return_urls, is_allowed_return, provider,
  or_fail, capability, measured,
}
use procyon_modules.Service.Checkout.{create_checkout, create_subscription}
use procyon_modules.Service.Checkout.Guards.{Checks, create_checkout-Checks}
use procyon_modules.Service.Checkout.Entitled.{Declines, active_subscription-Declines}
use procyon_modules.Tests.{new_world, subscription}
use procyon_modules.Tests.Config.{config}

abbrev pub stripe : Provider
stripe = record {
  name = bytes "stripe";
  prices = none;
  create_checkout = some (λ identity price success cancel key w. (ok (bytes "https://pay"), w));
  subscriptions = none;
  create_portal = none;
  handle_webhook = none;
  verify_store_purchase = none;
  reconcile_subscription = some (λ item w. (err (message (bytes "gone")), w));
}

abbrev pub service : PaymentSystemService
service = record {
  providers = (bytes "stripe", stripe) ∷ [];
  allowed_returns = bytes "http://localhost" ∷ [];
  config = config;
  parse_url = λ url. some (bytes "http", bytes "localhost");
}

abbrev input : PaymentCheckoutInput
input = record {
  provider = bytes "Stripe";
  price_id = bytes "price_1";
  success_url = bytes "http://localhost/ok";
  cancel_url = bytes "http://localhost/no";
  idempotency_key = bytes "k1";
}

create_checkout-Checks_example :
    Checks service
      (bytes "ann")
      input
      (new_world 100)
      (create_checkout service (bytes "ann") input (new_world 100))
create_checkout-Checks_example = create_checkout-Checks service (bytes "ann") input (new_world 100)

checkout_test :
    (create_checkout service (bytes "ann") input (new_world 100)).0 ≡ ok (bytes "https://pay")
unfolding create_checkout validate_return_urls is_allowed_return contains_provider trim_space ◌==◌
    to_lower provider or_fail lookup capability product find is_key normalized measured from ◌>>=◌
checkout_test = refl

-- Ann has an active subscription.
abbrev start : World
start = record (new_world 100) {
  db = record (new_world 100).db {
    subscriptions = record {
      rows = record (subscription (bytes "ann") SubscriptionStatus.active) { id = 1 } ∷ [];
      next_id = 2;
    };
  };
}

abbrev second : PaymentSubscriptionCheckoutInput
second = record {
  provider = bytes "stripe";
  price_id = bytes "price_1";
  success_url = bytes "http://localhost/ok";
  cancel_url = bytes "http://localhost/no";
  idempotency_key = bytes "k2";
}

ann_active : ltb 0 (count (is_current (bytes "ann") start.clock) start.db.subscriptions.rows) ≡ true
unfolding count is_current ◌==◌
ann_active = refl

active_subscription-Declines_example :
    Declines start (create_subscription service (bytes "ann") (bytes "ann@x") second start)
active_subscription-Declines_example =
    active_subscription-Declines service (bytes "ann") (bytes "ann@x") second start ann_active
