-- ===== src/Service/Queries.antt =====
-- The queries of service.go: what it answers from the store.
use procyon_modules.Base.{true, false, List, [], map, if◌then◌else◌}
use procyon_modules.Base.Int.{ℤ, pos, is_positive}
use procyon_modules.Base.Text.{Text}
use procyon_modules.Models.{
  SubscriptionStatus, PaymentEvent, PaymentWebhookEvent, PaymentSubscription,
}
use procyon_modules.Models.Errors.{Sentinel, is}
use procyon_modules.Models.Inputs.{
  PaymentSubscriptionResponse, PaymentEventResponse, PaymentEntitlementResponse,
  PaymentWebhookResponse,
}
use procyon_modules.Exec.{Result, ok, err, Exec, pure, ◌>>=◌}
use procyon_modules.Store.Webhooks.{list_failed_webhooks}
use procyon_modules.Store.Payments.{list_payments}
use procyon_modules.Store.Subscriptions.{list_subscriptions, active_entitlement}

-- `if limit <= 0 { limit = 50 }`
unfoldable pub limit_or_default : ℤ → ℤ
limit_or_default limit = if is_positive limit then limit else pos 50

abbrev event_response : PaymentEvent → PaymentEventResponse
event_response item = record {
  provider = item.provider;
  external_id = item.external_id;
  subscription_id = item.subscription_id;
  plan_code = item.price_id;
  status = item.status;
  kind = item.kind;
  amount_minor = item.amount_minor;
  currency = item.currency;
  occurred_at = item.occurred_at;
}

-- `PaymentHistory`
unfoldable pub payment_history : Text → ℤ → ℤ → Exec (List PaymentEventResponse)
unfolding limit_or_default
payment_history identity_id limit offset = do
  items ← list_payments identity_id (limit_or_default limit) offset
  pure (map event_response items)

abbrev subscription_response : PaymentSubscription → PaymentSubscriptionResponse
subscription_response item = record {
  provider = item.provider;
  subscription_id = item.external_subscription_id;
  plan_code = item.plan_code;
  status = item.status;
  current_period_start = item.current_period_start;
  current_period_end = item.current_period_end;
  cancel_at_period_end = item.cancel_at_period_end;
}

-- `ListSubscriptions`
unfoldable pub list_subscription_responses : Text → ℤ → ℤ → Exec (List PaymentSubscriptionResponse)
unfolding limit_or_default
list_subscription_responses identity_id limit offset = do
  items ← list_subscriptions identity_id (limit_or_default limit) offset
  pure (map subscription_response items)

abbrev webhook_response : PaymentWebhookEvent → PaymentWebhookResponse
webhook_response item = record {
  provider = item.provider;
  event_id = item.event_id;
  event_type = item.event_type;
  status = item.status;
  attempts = item.attempts;
  last_error = item.last_error;
  last_attempt_at = item.last_attempt_at;
  processed_at = item.processed_at;
}

-- `FailedWebhooks`
unfoldable pub failed_webhooks : ℤ → ℤ → Exec (List PaymentWebhookResponse)
unfolding limit_or_default
failed_webhooks limit offset = do
  items ← list_failed_webhooks (limit_or_default limit) offset
  pure (map webhook_response items)

abbrev pub no_entitlement : PaymentEntitlementResponse
no_entitlement = record {
  active = false;
  provider = [];
  plan_code = [];
  status = SubscriptionStatus.other [];
  expires_at = 0;
}

abbrev entitlement_response : PaymentSubscription → PaymentEntitlementResponse
entitlement_response item = record {
  active = true;
  provider = item.provider;
  plan_code = item.plan_code;
  status = item.status;
  expires_at = item.current_period_end;
}

-- What the service makes of the store's answer: "not found" is no error.
abbrev pub entitlement_of : Result PaymentSubscription → Result PaymentEntitlementResponse
entitlement_of (ok item) = ok (entitlement_response item)
entitlement_of (err e) = if is e Sentinel.record_not_found then ok no_entitlement else err e

-- `Entitlement`
unfoldable pub entitlement : Text → Text → Exec PaymentEntitlementResponse
unfolding is
entitlement identity_id plan_code w =
    let (r, w') = active_entitlement identity_id plan_code w in (entitlement_of r, w')
