-- ===== src/Providers/Stripe/Events.antt =====
-- The webhook of provider_stripe.go: what each of Stripe's events does to the payments and the
-- subscriptions.
use procyon_modules.Base.{Bool, true, false, Option, none, some, [], if◌then◌else◌}
use procyon_modules.Base.Text.{Text, bytes, is_empty}
use procyon_modules.Models.{
  Time, PaymentStatus, PaymentEvent, PaymentWebhookEvent, zero_payment, zero_webhook,
}
use procyon_modules.Models.Errors.{Sentinel, sentinel}
use procyon_modules.Exec.{Exec, pure, from, ◌>>=◌, ◌>>◌}
use procyon_modules.Store.Payments.{upsert_payment, get_payment}
use procyon_modules.Providers.Calls.{Metadata, get, attempt, replacing, unix_time}
use procyon_modules.Providers.Delivery.{deliver}
use procyon_modules.Providers.Stripe.{
  EventType, RefundStatus, DisputeStatus, PaymentIntent, SubscriptionDetails, Invoice, Refund,
  Dispute, StripeEvent, StripePaymentProvider, stripe,
}
use procyon_modules.Providers.Stripe.Subscriptions.{identity_key, id_of, upsert_stripe_subscription}
use procyon_modules.Providers.Stripe.Purchases.{handle_stripe_checkout}

-- The status of the payment of a payment intent.
unfoldable pub intent_status : EventType → PaymentStatus
intent_status EventType.payment_intent_succeeded = PaymentStatus.succeeded
intent_status EventType.payment_intent_payment_failed = PaymentStatus.failed
intent_status EventType.payment_intent_canceled = PaymentStatus.canceled
intent_status _ = PaymentStatus.pending

unfoldable pub refund_payment_status : RefundStatus → PaymentStatus
refund_payment_status RefundStatus.failed = PaymentStatus.failed
refund_payment_status (RefundStatus.other text) = PaymentStatus.refunded

unfoldable pub dispute_payment_status : DisputeStatus → PaymentStatus
dispute_payment_status DisputeStatus.won = PaymentStatus.succeeded
dispute_payment_status DisputeStatus.prevented = PaymentStatus.succeeded
dispute_payment_status (DisputeStatus.other text) = PaymentStatus.disputed

-- `stripeInvoiceSubscription`
unfoldable pub stripe_invoice_subscription : Option SubscriptionDetails → Text × Text
unfolding get
stripe_invoice_subscription none = ([], [])
stripe_invoice_subscription (some details) =
    (id_of details.subscription, get details.metadata identity_key)

-- The cases of the `switch` in `handleStripeEvent`; an invoice is paid or not.
pub data Topic : Type 0 where
  about_intent about_checkout about_subscription about_refund about_dispute ignored : Topic
  about_invoice : Bool → Topic

unfoldable pub topic_of : EventType → Topic
topic_of EventType.payment_intent_created = Topic.about_intent
topic_of EventType.payment_intent_succeeded = Topic.about_intent
topic_of EventType.payment_intent_payment_failed = Topic.about_intent
topic_of EventType.payment_intent_canceled = Topic.about_intent
topic_of EventType.checkout_session_completed = Topic.about_checkout
topic_of EventType.checkout_session_async_payment_succeeded = Topic.about_checkout
topic_of EventType.checkout_session_async_payment_failed = Topic.about_checkout
topic_of EventType.invoice_paid = Topic.about_invoice true
topic_of EventType.invoice_payment_failed = Topic.about_invoice false
topic_of EventType.customer_subscription_updated = Topic.about_subscription
topic_of EventType.customer_subscription_deleted = Topic.about_subscription
topic_of EventType.refund_created = Topic.about_refund
topic_of EventType.refund_updated = Topic.about_refund
topic_of EventType.refund_failed = Topic.about_refund
topic_of EventType.charge_dispute_created = Topic.about_dispute
topic_of EventType.charge_dispute_updated = Topic.about_dispute
topic_of EventType.charge_dispute_closed = Topic.about_dispute
topic_of EventType.charge_dispute_funds_withdrawn = Topic.about_dispute
topic_of EventType.charge_dispute_funds_reinstated = Topic.about_dispute
topic_of (EventType.other text) = Topic.ignored

module _ (p : StripePaymentProvider) where
  -- `handleStripeInvoice`
  unfoldable pub handle_stripe_invoice : Invoice → Bool → Time → Exec (Unit {0})
  unfolding stripe_invoice_subscription upsert_stripe_subscription get
  handle_stripe_invoice invoice paid occurred_at =
      let (subscription_id, identity_id) = stripe_invoice_subscription invoice.details in
      upsert_payment (record zero_payment {
        provider = stripe;
        external_id = invoice.id;
        identity_id = identity_id;
        customer_id = id_of invoice.customer;
        subscription_id = subscription_id;
        status = if paid then PaymentStatus.succeeded else PaymentStatus.failed;
        kind = bytes "subscription_cycle";
        amount_minor = if paid then invoice.amount_paid else invoice.amount_due;
        currency = invoice.currency;
        occurred_at = occurred_at;
      })
      >> (if is_empty subscription_id
          then pure tt
          else p.retrieve_subscription subscription_id >>= λ subscription.
              upsert_stripe_subscription p subscription (
                if is_empty identity_id
                then get subscription.metadata identity_key
                else identity_id))

  abbrev pub identity_of : Option PaymentEvent → Text
  identity_of none = []
  identity_of (some original) = original.identity_id

  -- The identity that a refund or a dispute names, or its payment intent, or the stored payment of
  -- that; an error of the lookup is passed over.
  abbrev pub intent_owner : Option PaymentIntent → Exec Text
  intent_owner none = pure []
  intent_owner (some intent) =
      if is_empty (get intent.metadata identity_key)
      then (attempt (get_payment stripe intent.id) >>= λ original. pure (identity_of original))
      else pure (get intent.metadata identity_key)

  unfoldable pub reversal_owner : Metadata → Option PaymentIntent → Exec Text
  unfolding get
  reversal_owner metadata intent =
      if is_empty (get metadata identity_key)
      then intent_owner intent
      else pure (get metadata identity_key)

  unfoldable pub handle_intent : StripeEvent → PaymentIntent → Exec (Unit {0})
  unfolding intent_status unix_time get
  handle_intent event intent = upsert_payment (record zero_payment {
    provider = stripe;
    external_id = intent.id;
    identity_id = get intent.metadata identity_key;
    customer_id = id_of intent.customer;
    status = intent_status event.kind;
    kind = bytes "one_time";
    amount_minor = intent.amount;
    currency = intent.currency;
    occurred_at = unix_time event.created;
  })

  unfoldable pub handle_refund : StripeEvent → Refund → Exec (Unit {0})
  unfolding refund_payment_status unix_time reversal_owner
  handle_refund event refund = do
    identity_id ← reversal_owner refund.metadata refund.payment_intent
    upsert_payment (record zero_payment {
      provider = stripe;
      external_id = refund.id;
      identity_id = identity_id;
      status = refund_payment_status refund.status;
      kind = bytes "refund";
      amount_minor = refund.amount;
      currency = refund.currency;
      occurred_at = unix_time event.created;
    })

  unfoldable pub handle_dispute : StripeEvent → Dispute → Exec (Unit {0})
  unfolding dispute_payment_status unix_time reversal_owner
  handle_dispute event dispute = do
    identity_id ← reversal_owner dispute.metadata dispute.payment_intent
    upsert_payment (record zero_payment {
      provider = stripe;
      external_id = dispute.id;
      identity_id = identity_id;
      status = dispute_payment_status dispute.status;
      kind = bytes "dispute";
      amount_minor = dispute.amount;
      currency = dispute.currency;
      occurred_at = unix_time event.created;
    })

  -- What the events are about: the `switch` over their types.
  abbrev pub handle_kind : StripeEvent → Topic → Exec (Unit {0})
  handle_kind event Topic.about_intent = from (p.unmarshal_intent event.raw) >>= handle_intent event
  handle_kind event Topic.about_checkout = from (p.unmarshal_session event.raw) >>= λ session.
      handle_stripe_checkout p session event.id (unix_time event.created) event.kind
  handle_kind event (Topic.about_invoice paid) = from (p.unmarshal_invoice event.raw) >>= λ invoice.
      handle_stripe_invoice invoice paid (unix_time event.created)
  handle_kind event Topic.about_subscription =
      from (p.unmarshal_subscription event.raw) >>= λ subscription.
      upsert_stripe_subscription p subscription (get subscription.metadata identity_key)
  handle_kind event Topic.about_refund = from (p.unmarshal_refund event.raw) >>= handle_refund event
  handle_kind event Topic.about_dispute =
      from (p.unmarshal_dispute event.raw) >>= handle_dispute event
  handle_kind event Topic.ignored = pure tt

  -- `handleStripeEvent`
  unfoldable pub handle_stripe_event : StripeEvent → Exec (Unit {0})
  unfolding topic_of handle_intent handle_stripe_checkout handle_stripe_invoice
      upsert_stripe_subscription handle_refund handle_dispute
  handle_stripe_event event = handle_kind event (topic_of event.kind)

  -- The event that is claimed.
  abbrev stripe_event : Text → Text → StripeEvent → PaymentWebhookEvent
  stripe_event payload signature event = record zero_webhook {
    provider = stripe;
    event_id = event.id;
    event_type = p.type_name event.kind;
    payload = payload;
    signature = signature;
  }

  -- `HandleWebhook`
  unfoldable pub handle_stripe_webhook : Text → Text → Exec (Unit {0})
  unfolding handle_stripe_event
  handle_stripe_webhook payload signature = do
    event ←
        replacing (sentinel Sentinel.invalid_signature)
          (p.construct_event payload signature p.webhook_secret)
    deliver p.webhook_lease (stripe_event payload signature event) (handle_stripe_event event)
