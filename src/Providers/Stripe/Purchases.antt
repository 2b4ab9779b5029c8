-- ===== src/Providers/Stripe/Purchases.antt =====
-- The checkouts of provider_stripe.go: the payment that is kept for one, and the message that is
-- published when it is a purchase.
use procyon_modules.Base.{
  Bool, true, false, ◌&&◌, not, Option, none, some, List, [], ◌∷◌, ◌++◌, if◌then◌else◌,
}
use procyon_modules.Base.Int.{pos}
use procyon_modules.Base.Text.{Text, bytes, ◌==◌, is_empty, trim_space, to_upper}
use procyon_modules.Models.{Time, PaymentStatus, PaymentEvent, zero_payment}
use procyon_modules.Models.Errors.{Sentinel, sentinel, message}
use procyon_modules.Exec.{Result, ok, err, Exec, pure, raise, from, ◌>>=◌, ◌>>◌}
use procyon_modules.Exec.Results.{require}
use procyon_modules.Config.{Product}
use procyon_modules.Store.Payments.{upsert_payment}
use procyon_modules.Providers.Calls.{Metadata, get, wrapping, product_at}
use procyon_modules.Providers.Stripe.{
  EventType, CheckoutMode, CheckoutPaymentStatus, CheckoutSession, PurchaseMessage,
  purchase_completed_v1_topic, StripePaymentProvider, stripe,
}
use procyon_modules.Providers.Stripe.Subscriptions.{identity_key, id_of, follow_subscription}

abbrev of_payment_status : CheckoutPaymentStatus → PaymentStatus
of_payment_status CheckoutPaymentStatus.paid = PaymentStatus.succeeded
of_payment_status CheckoutPaymentStatus.no_payment_required = PaymentStatus.succeeded
of_payment_status (CheckoutPaymentStatus.other text) = PaymentStatus.pending

-- `stripeCheckoutPaymentStatus`
unfoldable pub stripe_checkout_payment_status : CheckoutSession → EventType → PaymentStatus
stripe_checkout_payment_status session EventType.checkout_session_async_payment_failed =
    PaymentStatus.failed
stripe_checkout_payment_status session EventType.checkout_session_async_payment_succeeded =
    PaymentStatus.succeeded
stripe_checkout_payment_status session _ = of_payment_status session.payment_status

-- An id that is there and not empty, or else another text.
abbrev id_or : Option Text → Text → Text
id_or none text = text
id_or (some id) text = if not (is_empty id) then id else text

-- The id under which the payment of a checkout is kept.
unfoldable pub checkout_external_id : CheckoutSession → Text
checkout_external_id session = id_or session.payment_intent (id_or session.invoice session.id)

abbrev checkout_kind : CheckoutMode → Text
checkout_kind CheckoutMode.subscription = bytes "subscription_cycle"
checkout_kind _ = bytes "one_time"

-- The payment of a checkout, its price aside.
unfoldable pub checkout_payment : CheckoutSession → Time → EventType → PaymentEvent
unfolding checkout_external_id stripe_checkout_payment_status get
checkout_payment session occurred_at event_type = record zero_payment {
  provider = stripe;
  external_id = checkout_external_id session;
  identity_id = get session.metadata identity_key;
  customer_id = id_of session.customer;
  subscription_id = id_of session.subscription;
  status = stripe_checkout_payment_status session event_type;
  kind = checkout_kind session.mode;
  amount_minor = session.amount_total;
  currency = session.currency;
  occurred_at = occurred_at;
}

abbrev is_succeeded : PaymentStatus → Bool
is_succeeded PaymentStatus.succeeded = true
is_succeeded _ = false

abbrev is_payment_mode : CheckoutMode → Bool
is_payment_mode CheckoutMode.payment = true
is_payment_mode _ = false

-- The checkout is a one-time one that has been paid, which is to be published.
unfoldable pub is_purchase : CheckoutSession → EventType → Bool
unfolding stripe_checkout_payment_status
is_purchase session event_type =
    is_succeeded (stripe_checkout_payment_status session event_type) && is_payment_mode session.mode

-- `Product{}`
abbrev zero_product : Product
zero_product = record {
  provider = [];
  product_id = [];
  plan_code = [];
  kind = [];
  currency = [];
  amount_minor = pos 0;
  interval = [];
  enabled = none;
}

-- The message about a purchase. Its id is the same for every event about one payment.
unfoldable pub purchase_message :
    CheckoutSession → Text → Time → PaymentEvent → Product → PurchaseMessage
unfolding get
purchase_message session provider_event_id occurred_at payment q = record {
  id = purchase_completed_v1_topic ++ b':' ∷ stripe ++ b':' ∷ payment.external_id;
  occurred_at = occurred_at;
  source = bytes "payment-system";
  correlation_id = provider_event_id;
  payload = record {
    provider = stripe;
    external_payment_id = payment.external_id;
    checkout_id = session.id;
    identity_id = get session.metadata identity_key;
    price_id = payment.price_id;
    plan_code = q.plan_code;
    amount_minor = payment.amount_minor;
    currency = to_upper payment.currency;
    completed_at = occurred_at;
  };
}

abbrev head : List (Option Text) → Text
head [] = []
head (price ∷ items) = id_of price

-- The loop of `loadCheckoutPrice`.
unfoldable pub first_price : List (Result (Option Text)) → Result Text
unfolding trim_space
first_price [] = err (message (bytes "Stripe Checkout has no price line item"))
first_price (err e ∷ items) = err e
first_price (ok price ∷ items) =
    let rest = first_price items in
    if not (is_empty (trim_space (id_of price))) then ok (id_of price) else rest

-- The product of a purchase, if it is sold once and the checkout names no other plan.
unfoldable pub purchased : Metadata → Text → Option Product → Result (Text × Product)
unfolding get trim_space
purchased metadata price_id none = err (sentinel Sentinel.product_rejected)
purchased metadata price_id (some q) =
    let plan_code = trim_space (get metadata (bytes "plan_code")) in
    if not (q.kind == bytes "one_time")
    then err (sentinel Sentinel.product_rejected)
    else if not (is_empty plan_code) && not (plan_code == q.plan_code)
    then err (sentinel Sentinel.product_rejected)
    else ok (price_id, q)

-- `coreevents.Publish` on the bus, which has to be there.
abbrev pub publish :
    Option (Text → PurchaseMessage → Exec (Unit {0})) → PurchaseMessage → Exec (Unit {0})
publish none m =
    raise (
      message
        (bytes "payment-system requires the Procyon event bus to publish completed purchases"))
publish (some send) m = send purchase_completed_v1_topic m

module _ (p : StripePaymentProvider) where
  abbrev listed_price : Option (Text → Exec (List (Result (Option Text)))) → Text → Exec Text
  listed_price none session_id = raise (message (bytes "Stripe Checkout client is unavailable"))
  listed_price (some list) session_id = do items ← list session_id; from (first_price items)

  -- `loadCheckoutPrice`
  unfoldable pub load_checkout_price : Text → Exec Text
  unfolding first_price
  load_checkout_price = listed_price p.line_items

  abbrev resolved : Option (Text → Exec Text) → Text → Exec Text
  resolved (some resolve) session_id = resolve session_id
  resolved none session_id = load_checkout_price session_id

  -- The price that the session itself names.
  unfoldable pub session_price : CheckoutSession → Text
  unfolding get trim_space
  session_price session =
      let named = trim_space (get session.metadata (bytes "price_id")) in
      if is_empty named then head session.line_items else named

  -- `checkoutProduct`
  unfoldable pub checkout_product : CheckoutSession → Exec (Text × Product)
  unfolding session_price load_checkout_price purchased product_at
  checkout_product session = do
    price_id ←
        if is_empty (session_price session)
        then wrapping (bytes "resolve Stripe Checkout " ++ session.id ++ bytes " price")
            (resolved p.resolve_checkout_price session.id)
        else pure (session_price session)
    from (purchased session.metadata price_id (product_at p.products price_id))

  -- The price and the product of a checkout: only a purchase has to have them.
  unfoldable pub checkout_price : CheckoutSession → EventType → Exec (Text × Product)
  unfolding checkout_product is_purchase
  checkout_price session event_type =
      if is_purchase session event_type
      then from (
          require (not (is_empty (trim_space (get session.metadata identity_key))))
            (message (bytes "Stripe Checkout is missing Procyon identity metadata")))
        >> checkout_product session
      else pure (trim_space (get session.metadata (bytes "price_id")), zero_product)

  -- `handleStripeCheckout`
  unfoldable pub handle_stripe_checkout :
      CheckoutSession → Text → Time → EventType → Exec (Unit {0})
  unfolding checkout_price checkout_payment purchase_message
  handle_stripe_checkout session provider_event_id occurred_at event_type = do
    (price_id, q) ← checkout_price session event_type
    let payment = record (checkout_payment session occurred_at event_type) { price_id = price_id }
    upsert_payment payment
    if is_purchase session event_type
        then publish p.event_bus (purchase_message session provider_event_id occurred_at payment q)
        else follow_subscription p (id_of session.subscription) (get session.metadata identity_key)
