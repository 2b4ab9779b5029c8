-- ===== src/Providers/Google/Notifications.antt =====
-- The notifications of provider_google.go: a webhook, from its push token to the purchase or the
-- refund that it is about.
use procyon_modules.Base.{false, ◌||◌, not, Option, none, some, [], ◌∷◌, ◌++◌, eqb, if◌then◌else◌}
use procyon_modules.Base.Int.{pos}
use procyon_modules.Base.Text.{Text, bytes, ◌==◌, is_empty, trim_space}
use procyon_modules.Models.{PaymentStatus, SubscriptionStatus, WebhookStatus, PaymentWebhookEvent}
use procyon_modules.Models.Errors.{Sentinel, sentinel, message}
use procyon_modules.Exec.{Exec, pure, raise, from, time_now, ◌>>=◌, ◌>>◌}
use procyon_modules.Exec.Results.{require, wrap}
use procyon_modules.Store.Payments.{upsert_payment}
use procyon_modules.Store.Subscriptions.{upsert_subscription, get_subscription_by_external}
use procyon_modules.Providers.Delivery.{deliver}
use procyon_modules.Providers.Calls.{replacing}
use procyon_modules.Providers.Google.{DeveloperNotification, GooglePaymentProvider, google}
use procyon_modules.Providers.Google.Purchases.{google_token_key, verify_and_store}

-- `strings.TrimPrefix(whole, prefix)`, where `s` is what is left of the whole text.
unfoldable pub trim_prefix_of : Text → Text → Text → Text
trim_prefix_of whole [] s = s
trim_prefix_of whole (c ∷ cs) [] = whole
trim_prefix_of whole (c ∷ cs) (d ∷ s) =
    let rest = trim_prefix_of whole cs s in if eqb c d then rest else whole

unfoldable pub bearer_token : Text → Text
unfolding trim_prefix_of
bearer_token authorization =
    trim_space (trim_prefix_of authorization (bytes "Bearer ") authorization)

abbrev subscription_type : Option (Text × Text) → Text
subscription_type none = bytes "UNKNOWN"
subscription_type (some (kind, token)) = bytes "SUBSCRIPTION_" ++ kind

abbrev voided_type : Option (Text × Text) → Option (Text × Text) → Text
voided_type (some voided) subscription = bytes "VOIDED_PURCHASE"
voided_type none subscription = subscription_type subscription

-- `googleNotificationType`
unfoldable pub google_notification_type : DeveloperNotification → Text
google_notification_type n = if n.test then bytes "TEST" else voided_type n.voided n.subscription

module _ (p : GooglePaymentProvider) where
  -- A voided purchase: the subscription and its order are refunded.
  unfoldable pub process_voided : Text → Text → Exec (Unit {0})
  unfolding google_token_key
  process_voided purchase_token order_id = do
    stored ← get_subscription_by_external google (google_token_key p purchase_token)
    upsert_subscription (record stored { status = SubscriptionStatus.refunded })
    now ← time_now
    upsert_payment (record {
      id = 0;
      provider = google;
      external_id = order_id;
      identity_id = stored.identity_id;
      customer_id = [];
      subscription_id = google_token_key p purchase_token;
      price_id = stored.plan_code;
      status = PaymentStatus.refunded;
      kind = bytes "refund";
      amount_minor = pos 0;
      currency = [];
      occurred_at = now;
      created_at = 0;
      updated_at = 0;
    })

  abbrev process_subscription : Option (Text × Text) → Exec (Unit {0})
  process_subscription none = raise (message (bytes "unsupported Google RTDN"))
  process_subscription (some (kind, purchase_token)) = do
    stored ← get_subscription_by_external google (google_token_key p purchase_token)
    verify_and_store p stored.identity_id purchase_token [] false

  abbrev process_parts : Option (Text × Text) → Option (Text × Text) → Exec (Unit {0})
  process_parts (some (purchase_token, order_id)) subscription =
      process_voided purchase_token order_id
  process_parts none subscription = process_subscription subscription

  -- `processNotification`
  unfoldable pub process_notification : DeveloperNotification → Exec (Unit {0})
  unfolding process_voided verify_and_store
  process_notification n = if n.test then pure tt else process_parts n.voided n.subscription

  -- The parsed message: its id and its data.
  abbrev envelope_of : Option (Text × Text) → Exec (Text × Text)
  envelope_of none = raise (message (bytes "invalid Google Pub/Sub envelope"))
  envelope_of (some (id, content)) =
      if is_empty id
      then raise (message (bytes "invalid Google Pub/Sub envelope"))
      else pure (id, content)

  -- The event that is claimed for a notification.
  abbrev google_event : Text → Text → Text → DeveloperNotification → PaymentWebhookEvent
  google_event body authorization id n = record {
    id = 0;
    provider = google;
    event_id = id;
    event_type = google_notification_type n;
    status = WebhookStatus.other [];
    attempts = 0;
    payload = body;
    signature = authorization;
    lease_id = [];
    processing_started_at = none;
    last_attempt_at = none;
    processed_at = none;
    last_error = [];
    created_at = 0;
    updated_at = 0;
  }

  -- `HandleWebhook`
  unfoldable pub handle_google_webhook : Text → Text → Exec (Unit {0})
  unfolding bearer_token
  handle_google_webhook body authorization = do
    from (
        require
          (not
            (bearer_token authorization == authorization || is_empty (bearer_token authorization)))
          (sentinel Sentinel.invalid_signature))
    replacing (sentinel Sentinel.invalid_signature)
        (p.validate_push_token (bearer_token authorization) p.pubsub_audience)
    (id, content) ← envelope_of (p.parse_envelope body)
    decoded ← from (wrap (bytes "decode Google RTDN") (p.decode_base64 content))
    n ← from (wrap (bytes "parse Google RTDN") (p.parse_notification decoded))
    from (require (n.package_name == p.package_name) (sentinel Sentinel.invalid_signature))
    deliver p.webhook_lease (google_event body authorization id n) (process_notification n)
