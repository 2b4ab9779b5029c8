-- ===== src/Tests/Providers.antt =====
-- Deliveries and purchases on concrete values.
use procyon_modules.Base.{sym, subst, List, ◌≡◌, refl, false, none, some, [], ◌∷◌}
use procyon_modules.Base.Int.{pos}
use procyon_modules.Base.Text.{bytes, ◌==◌}
use procyon_modules.Models.{WebhookStatus, SubscriptionStatus, PaymentWebhookEvent}
use procyon_modules.Models.Inputs.{PaymentStoreVerificationInput}
use procyon_modules.Models.Errors.{message}
use procyon_modules.Exec.{ok, err, World, pure}
use procyon_modules.Store.Table.{find, count, update_where}
use procyon_modules.Store.Keyed.{is_key}
use procyon_modules.Store.Webhooks.{is_claimable, hex}
use procyon_modules.Store.Webhooks.Keys.{row_of, IsKeyed}
use procyon_modules.Store.Subscriptions.{upsert_subscription}
use procyon_modules.Providers.Delivery.{process_claimed, deliver, Leaves, deliver-Leaves}
use procyon_modules.Providers.Google.{SubscriptionPurchase, GooglePaymentProvider}
use procyon_modules.Providers.Google.Purchases.{
  account_binding, verify_google_purchase, map_google_v2_status,
}
use procyon_modules.Providers.Google.Owners.{Rejects, verify_google_purchase-Rejects}
use procyon_modules.Models.{Time, PaymentStatus, PaymentEvent}
use procyon_modules.Exec.{
  Result, Exec, Table, random_bytes, statement, transaction, time_now, raise, ◌>>=◌,
}
use procyon_modules.Store.Payments.{
  upsert_payment, find_payment, write_payment, create_payment, created, dated,
}
use procyon_modules.Store.Payments.Upsert.{HasPayments, Upserts, upsert_payment-Upserts}
use procyon_modules.Store.Webhooks.{
  claim_webhook, finish_webhook, create_webhook, first_claim, webhook_lease_id, update_webhooks,
  is_held, finished,
}
use procyon_modules.Store.Webhooks.History.{Call, run, count_grants}
use procyon_modules.Providers.Delivery.Once.{KeepsKeys, delivered_once}
use procyon_modules.Tests.{new_world, webhook, subscription, payment}
use procyon_modules.Tests.Config.{config}

abbrev processed : PaymentWebhookEvent
processed = record (webhook (bytes "evt_1")) {
  id = 1;
  status = WebhookStatus.succeeded;
  processed_at = some 90;
}

abbrev start : World
start = record (new_world 100) {
  db = record (new_world 100).db { webhooks = record { rows = processed ∷ []; next_id = 2 } };
}

start-IsKeyed : IsKeyed start.db
unfolding find
start-IsKeyed = (refl, tt)

processed_found : row_of (bytes "stripe") (bytes "evt_1") start.db ≡ some processed
unfolding find is_key ◌==◌
processed_found = refl

processed_closed : is_claimable start.clock (pos 50) processed ≡ false
unfolding is_claimable
processed_closed = refl

deliver-Leaves_example : Leaves (webhook (bytes "evt_1")) start (
    deliver
      (pos 50)
      (webhook (bytes "evt_1"))
      (upsert_subscription (subscription (bytes "ann") SubscriptionStatus.active))
      start)
deliver-Leaves_example =
    deliver-Leaves (pos 50) (webhook (bytes "evt_1")) start
      (upsert_subscription (subscription (bytes "ann") SubscriptionStatus.active)) processed
      start-IsKeyed processed_found processed_closed

abbrev purchase : SubscriptionPurchase
purchase = record {
  obfuscated_external_account_id = bytes "someone";
  line_items = [];
  acknowledgement_state = [];
  start_time = [];
  subscription_state = bytes "SUBSCRIPTION_STATE_ACTIVE";
  latest_order_id = [];
}

-- Every token is of the one purchase; the digest of a text is its first byte.
abbrev pub google : GooglePaymentProvider
google = record {
  package_name = bytes "app";
  pubsub_audience = bytes "aud";
  config = config;
  webhook_lease = pos 50;
  validate_push_token = λ token audience. pure tt;
  parse_envelope = λ body. none;
  decode_base64 = λ text. ok text;
  parse_notification = λ text. err (message []);
  get_purchase = λ name token w. (ok purchase, w);
  acknowledge = λ name product token. pure tt;
  acknowledge_already_done = λ e. false;
  parse_time = λ text. ok 0;
  sha256 = λ text. 112 ∷ [];
  gcm = err (message []);
  encode_raw = λ text. text;
  decode_raw = λ text. ok text;
}

abbrev input : PaymentStoreVerificationInput
input = record {
  package_name = [];
  product_id = bytes "gold";
  purchase_token = bytes "tok";
  signed_payload = [];
}

stranger : (purchase.obfuscated_external_account_id == account_binding google (bytes "ann")) ≡ false
unfolding account_binding ◌==◌ hex
stranger = refl

verify_google_purchase-Rejects_example :
    Rejects start start (verify_google_purchase google (bytes "ann") input start)
verify_google_purchase-Rejects_example =
    verify_google_purchase-Rejects google (bytes "ann") start start purchase stranger input refl

state_test : map_google_v2_status purchase.subscription_state ≡ SubscriptionStatus.active
unfolding map_google_v2_status ◌==◌
state_test = refl

-- The processing of a payment keeps the keys of the webhooks.
upsert_payment-KeepsKeys :
    (w : World)
    → HasPayments w.db
    → KeepsKeys
        (pos 50)
        (webhook (bytes "evt_1"))
        w
        (upsert_payment (payment PaymentStatus.succeeded 80))
unfolding Upserts
upsert_payment-KeepsKeys w h v ps ss k =
    go (upsert_payment paid v) (upsert_payment-Upserts paid v (subst IsPayments (sym ps) h))
  where
    paid : PaymentEvent
    paid = payment PaymentStatus.succeeded 80

    IsPayments : Table PaymentEvent → Type 0
    IsPayments table = HasPayments (record w.db { payments = table })

    go : (res : Result (Unit {0}) × World) → Upserts paid v res → IsKeyed res.1.db
    go (err e, w1) u = subst IsKeyed (sym u.0) k
    go (ok r, w1) u = subst (λ table. IsKeyed (record v.db { webhooks = table })) (sym u.1) k

-- The event of a payment is delivered for the first time, another worker reports that it has lost
-- its lease, and the event comes again.
abbrev paying : Exec (Unit {0})
paying = upsert_payment (payment PaymentStatus.succeeded 80)

abbrev delivered : World
delivered = (deliver (pos 50) (webhook (bytes "evt_1")) paying (new_world 100)).1

abbrev calls : List (Time × Call)
calls = (120, Call.finishes (bytes "stripe") (bytes "evt_1") (bytes "old") none) ∷ []

abbrev later : World
later = record (run (pos 50) calls delivered) { clock = 200 }

empty-IsKeyed : IsKeyed (new_world 100).db
empty-IsKeyed = tt

empty-HasPayments : HasPayments (new_world 100).db
empty-HasPayments = record { index = tt; ids = tt; below = tt }

first_delivery :
    deliver (pos 50) (webhook (bytes "evt_1")) paying (new_world 100) ≡ (ok tt, delivered)
unfolding deliver ◌>>=◌ claim_webhook time_now webhook_lease_id random_bytes statement
    create_webhook process_claimed upsert_payment transaction write_payment find_payment
    finish_webhook update_webhooks create_payment is_key ◌==◌ pure raise created dated find
    update_where count finished first_claim hex is_held
first_delivery = refl

delivered_once_example :
    (count_grants (pos 50) (bytes "stripe") (bytes "evt_1") calls delivered ≡ 0)
    × Leaves
        (webhook (bytes "evt_1"))
        later
        (deliver (pos 50) (webhook (bytes "evt_1")) paying later)
unfolding find
delivered_once_example =
    delivered_once (pos 50) (webhook (bytes "evt_1")) (new_world 100) delivered paying paying calls
      200 empty-IsKeyed refl (upsert_payment-KeepsKeys (new_world 100) empty-HasPayments)
      first_delivery
