-- ===== src/Tests.antt =====
-- The tests of the model, on concrete databases: a world where no statement fails, and one where
-- one does.
mod Webhooks
mod Payments
mod Subscriptions
mod Config
mod Service
mod Reconcile
mod Outer
mod Providers
mod Stripe
mod Apple
mod Google
mod Plugin
use procyon_modules.Base.{ℕ, Bool, true, false, Option, none, some, List, [], ◌∷◌, eqb}
use procyon_modules.Base.Int.{ℤ, pos}
use procyon_modules.Base.Text.{Text, bytes}
use procyon_modules.Models.{
  Time, WebhookStatus, PaymentStatus, SubscriptionStatus, PaymentEvent, PaymentWebhookEvent,
  PaymentSubscription,
}
use procyon_modules.Exec.{Table, World}

abbrev pub no_rows : {Row : Type 0} → Table Row
no_rows = record { rows = []; next_id = 1 }

-- A new database at time `t`. The n-th draw of randomness is the one byte n,
-- whatever the size that is asked for.
abbrev pub new_world : Time → World
new_world t = record {
  db = record { webhooks = no_rows; payments = no_rows; subscriptions = no_rows; migrations = [] };
  clock = t;
  fails = λ n. none;
  entropy = λ n size. some (n ∷ []);
  requests = 0;
  metrics = λ name. record { requests = 0; failures = 0; total_latency = 0 };
}

-- The same, where the driver fails at one request.
abbrev pub failing_world : Time → ℕ → World
failing_world t n = record (new_world t) {
  fails = λ m. elim (eqb m n) [ true ↦ some (bytes "down") | false ↦ none ];
}

-- A webhook as a provider hands it to `ClaimWebhook`.
abbrev pub webhook : Text → PaymentWebhookEvent
webhook event_id = record {
  id = 0;
  provider = bytes "stripe";
  event_id = event_id;
  event_type = bytes "invoice.paid";
  status = WebhookStatus.other [];
  attempts = 0;
  payload = bytes "body";
  signature = bytes "sig";
  lease_id = [];
  processing_started_at = none;
  last_attempt_at = none;
  processed_at = none;
  last_error = [];
  created_at = 0;
  updated_at = 0;
}

abbrev pub payment : PaymentStatus → Time → PaymentEvent
payment status occurred_at = record {
  id = 0;
  provider = bytes "stripe";
  external_id = bytes "in_1";
  identity_id = bytes "ann";
  customer_id = bytes "cus_1";
  subscription_id = bytes "sub_1";
  price_id = bytes "gold";
  status = status;
  kind = bytes "subscription";
  amount_minor = pos 990;
  currency = bytes "eur";
  occurred_at = occurred_at;
  created_at = 0;
  updated_at = 0;
}

abbrev pub subscription : Text → SubscriptionStatus → PaymentSubscription
subscription identity_id status = record {
  id = 0;
  provider = bytes "stripe";
  external_subscription_id = bytes "sub_1";
  identity_id = identity_id;
  customer_id = bytes "cus_1";
  plan_code = bytes "gold";
  status = status;
  current_period_start = 10;
  current_period_end = 500;
  cancel_at = none;
  cancel_at_period_end = false;
  provider_data = [];
  created_at = 0;
  updated_at = 0;
}
