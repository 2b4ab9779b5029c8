-- ===== src/Tests/Stripe.antt =====
-- Checkouts, subscriptions and prices of Stripe on concrete values.
use procyon_modules.Base.{arith, ◌≡◌, refl, false, none, some, [], ◌∷◌, All}
use procyon_modules.Base.Int.{pos}
use procyon_modules.Base.Text.{Text, bytes, ◌==◌, trim_space, to_lower}
use procyon_modules.Models.{PaymentStatus, PaymentEvent, PaymentSubscription}
use procyon_modules.Models.Inputs.{PaymentPriceOption}
use procyon_modules.Models.Errors.{message}
use procyon_modules.Exec.{
  ok, err, World, pure, raise, from, statement, transaction, time_now, ◌>>=◌,
}
use procyon_modules.Store.Table.{find}
use procyon_modules.Store.Keyed.{is_key}
use procyon_modules.Store.Payments.{
  upsert_payment, find_payment, write_payment, create_payment, created, dated,
}
use procyon_modules.Store.Subscriptions.{
  upsert_subscription, find_subscription, write_subscription, create_subscription,
}
use procyon_modules.Store.Subscriptions.Upsert.{subscription_of, HasSubscriptions}
use procyon_modules.Providers.Calls.{get, product_at}
use procyon_modules.Providers.Stripe.{
  EventType, StripeSubscriptionStatus, CheckoutMode, CheckoutPaymentStatus, CheckoutSession,
  StripeSubscription, StripePrice, StripePaymentProvider, stripe,
}
use procyon_modules.Providers.Stripe.Sales.{PriceCache, stripe_prices}
use procyon_modules.Providers.Stripe.Offers.{IsOffered, Lists, stripe_prices-Lists}
use procyon_modules.Providers.Stripe.Subscriptions.{upsert_stripe_subscription}
use procyon_modules.Providers.Stripe.Entitlement.{Tracks, upsert_stripe_subscription-Tracks}
use procyon_modules.Providers.Stripe.Purchases.{
  handle_stripe_checkout, checkout_price, checkout_product, session_price, purchased,
  checkout_payment, checkout_external_id, stripe_checkout_payment_status, is_purchase,
  purchase_message,
}
use procyon_modules.Providers.Stripe.Publication.{Publishes, handle_stripe_checkout-Publishes}
use procyon_modules.Tests.{new_world, payment}
use procyon_modules.Store.Payments.{update_payment, payment_status_rank}
use procyon_modules.Store.Payments.Upsert.{payment_of, HasPayments}
use procyon_modules.Providers.Stripe.{DisputeStatus, Dispute, StripeEvent}
use procyon_modules.Providers.Stripe.Events.{
  topic_of, handle_stripe_event, handle_dispute, reversal_owner, dispute_payment_status,
}
use procyon_modules.Store.Payments.Settled.{settled}
use procyon_modules.Providers.Stripe.Reports.{Settles, handle_stripe_event-Settles}
use procyon_modules.Tests.Config.{gold}

-- Stripe has two prices, of which the catalog has one. The bus rejects every message, by its id.
abbrev pub provider : StripePaymentProvider
provider = record {
  webhook_secret = bytes "whsec";
  trial_days = 0;
  products = gold ∷ [];
  webhook_lease = pos 50;
  event_bus = some (λ topic m. raise (message m.id));
  resolve_checkout_price = none;
  construct_event = λ payload signature secret. raise (message []);
  type_name = λ kind. [];
  list_prices = pure (ok (price (bytes "price_1")) ∷ ok (price (bytes "price_2")) ∷ []);
  create_session = λ params. pure [];
  update_subscription = λ id. pure tt;
  cancel_subscription = λ id. pure tt;
  create_portal_session = λ customer url. pure [];
  retrieve_subscription = λ id. raise (message []);
  line_items = none;
  unmarshal_intent = λ raw. err (message []);
  unmarshal_session = λ raw. err (message []);
  unmarshal_invoice = λ raw. err (message []);
  unmarshal_subscription = λ raw. err (message []);
  unmarshal_refund = λ raw. err (message []);
  unmarshal_dispute = λ raw. err (message []);
}
  where
    price : Text → StripePrice
    price id = record {
      id = id;
      currency = bytes "eur";
      unit_amount = pos 990;
      recurring = none;
      nickname = [];
      metadata = [];
      kind = bytes "one_time";
      product = none;
    }

-- Ann has paid for gold.
abbrev session : CheckoutSession
session = record {
  id = bytes "cs_1";
  payment_intent = some (bytes "pi_1");
  invoice = none;
  metadata = (bytes "identity_id", bytes "ann") ∷ (bytes "price_id", bytes "price_1") ∷ [];
  subscription = none;
  customer = none;
  amount_total = pos 990;
  currency = bytes "eur";
  mode = CheckoutMode.payment;
  payment_status = CheckoutPaymentStatus.paid;
  line_items = [];
}

handle_stripe_checkout-Publishes_example :
    Publishes provider session
      (bytes "evt_1")
      90
      EventType.checkout_session_completed
      (new_world 100)
      (handle_stripe_checkout provider session
        (bytes "evt_1")
        90
        EventType.checkout_session_completed
        (new_world 100))
handle_stripe_checkout-Publishes_example =
    handle_stripe_checkout-Publishes provider session (bytes "evt_1") 90
      EventType.checkout_session_completed (new_world 100)

published_test :
    (handle_stripe_checkout provider session
      (bytes "evt_1")
      90
      EventType.checkout_session_completed
      (new_world 100)).0
    ≡ err (message (bytes "payment.purchase.completed.v1:stripe:pi_1"))
unfolding handle_stripe_checkout checkout_price checkout_product session_price purchased get
    product_at find ◌==◌ trim_space stripe_checkout_payment_status is_purchase purchase_message
    checkout_payment checkout_external_id upsert_payment find_payment write_payment create_payment
    created dated is_key statement transaction time_now ◌>>=◌ from pure raise
published_test = refl

-- A subscription that is paid until 2024.
abbrev pub bought : StripeSubscription
bought = record {
  id = bytes "sub_1";
  metadata = [];
  customer = some (bytes "cus_1");
  status = StripeSubscriptionStatus.active;
  cancel_at_period_end = false;
  cancel_at = pos 0;
  items =
      some (record {
        current_period_start = pos 1700000000;
        current_period_end = pos 1704067200;
        price = none;
      })
      ∷ [];
}

abbrev after : World
after = (upsert_stripe_subscription provider bought (bytes "ann") (new_world 100)).1

empty-HasSubscriptions : HasSubscriptions (new_world 100).db
empty-HasSubscriptions = record { index = tt; ids = tt; below = tt }

bought_kept :
    upsert_stripe_subscription provider bought (bytes "ann") (new_world 100) ≡ (ok tt, after)
unfolding upsert_stripe_subscription upsert_subscription find_subscription write_subscription
    create_subscription find statement transaction time_now ◌>>=◌ from pure raise
bought_kept = refl

upsert_stripe_subscription-Tracks_example :
    (r : PaymentSubscription) × (subscription_of stripe (bytes "sub_1") after.db ≡ some r)
    × Tracks bought r
upsert_stripe_subscription-Tracks_example =
    upsert_stripe_subscription-Tracks provider bought (bytes "ann") (new_world 100) after
      empty-HasSubscriptions refl bought_kept

-- The cache has the one price that is offered, and is as old as the clock.
abbrev option : PaymentPriceOption
option = record {
  id = bytes "price_1";
  amount_minor = pos 990;
  currency = bytes "eur";
  description = bytes "gold";
  kind = bytes "one_time";
  interval = [];
  product_id = [];
  product_name = [];
}

abbrev pub cache : PriceCache
cache = record { prices = option ∷ []; prices_at = 0 }

cache-IsOffered : All (IsOffered provider.products) cache.prices
unfolding product_at find ◌==◌ to_lower
cache-IsOffered =
    (record { product = gold; listed = refl; currency = refl; amount = refl; interval = refl }, tt)

abbrev late : World
late = new_world 2000000000000

stripe_prices-Lists_example : Lists provider.products cache (stripe_prices provider cache late)
stripe_prices-Lists_example = stripe_prices-Lists provider cache late cache-IsOffered

-- A dispute that was open is won.
abbrev disputed : PaymentEvent
disputed = record (payment PaymentStatus.disputed 80) { id = 1; external_id = bytes "dp_1" }

abbrev dispute_start : World
dispute_start = record (new_world 100) {
  db = record (new_world 100).db { payments = record { rows = disputed ∷ []; next_id = 2 } };
}

dispute_start-HasPayments : HasPayments dispute_start.db
unfolding find
dispute_start-HasPayments = record {
  index = (refl, tt);
  ids = (refl, tt);
  below = (omega arith, tt);
}

abbrev won : Dispute
won = record {
  id = bytes "dp_1";
  status = DisputeStatus.won;
  metadata = (bytes "identity_id", bytes "ann") ∷ [];
  payment_intent = none;
  amount = pos 990;
  currency = bytes "eur";
}

abbrev closing : StripePaymentProvider
closing = record provider { unmarshal_dispute = λ raw. ok won }

abbrev closed : StripeEvent
closed = record {
  id = bytes "evt_2";
  kind = EventType.charge_dispute_closed;
  created = pos 1700000000;
  raw = [];
}

abbrev dispute_end : World
dispute_end = (handle_stripe_event closing closed dispute_start).1

won_handled : handle_stripe_event closing closed dispute_start ≡ (ok tt, dispute_end)
unfolding handle_stripe_event topic_of handle_dispute reversal_owner get ◌==◌ upsert_payment
    find_payment find is_key write_payment update_payment statement transaction time_now ◌>>=◌ from
    pure raise
won_handled = refl

handle_stripe_event-Settles_example :
    Settles (bytes "dp_1") PaymentStatus.succeeded dispute_start dispute_end
unfolding topic_of dispute_payment_status
handle_stripe_event-Settles_example =
    handle_stripe_event-Settles closing closed dispute_start dispute_end dispute_start-HasPayments
      (bytes "dp_1") PaymentStatus.succeeded refl won_handled

-- The dispute stays open.
still_disputed :
    settled (payment_of stripe (bytes "dp_1") dispute_start.db) PaymentStatus.succeeded
    ≡ PaymentStatus.disputed
unfolding find is_key ◌==◌ payment_status_rank
still_disputed = refl
