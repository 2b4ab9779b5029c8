-- ===== src/Models/Inputs.antt =====
-- payment-system/models/inputs.go and outputs.go: what the service is called with, and its answers.
use procyon_modules.Base.{ℕ, Bool, Option}
use procyon_modules.Base.Int.{ℤ}
use procyon_modules.Base.Text.{Text}
use procyon_modules.Models.Status.{WebhookStatus, PaymentStatus, SubscriptionStatus}

pub record PaymentCheckoutInput : Type 0 where
  pub provider : Text
  pub price_id : Text
  pub success_url : Text
  pub cancel_url : Text
  pub idempotency_key : Text

pub record PaymentSubscriptionCheckoutInput : Type 0 where
  pub provider : Text
  pub price_id : Text
  pub success_url : Text
  pub cancel_url : Text
  pub idempotency_key : Text

pub record PaymentCancelSubscriptionInput : Type 0 where
  pub provider : Text
  pub subscription_id : Text
  pub cancel_at_period_end : Bool

pub record PaymentPortalInput : Type 0 where
  pub provider : Text
  pub return_url : Text

pub record PaymentStoreVerificationInput : Type 0 where
  pub package_name : Text
  pub product_id : Text
  pub purchase_token : Text
  pub signed_payload : Text

pub record PaymentPriceOption : Type 0 where
  pub id : Text
  pub amount_minor : ℤ
  pub currency : Text
  pub description : Text
  pub kind : Text
  pub interval : Text
  pub product_id : Text
  pub product_name : Text

-- Times are nanoseconds since Go's zero time.
pub record PaymentSubscriptionResponse : Type 0 where
  pub provider : Text
  pub subscription_id : Text
  pub plan_code : Text
  pub status : SubscriptionStatus
  pub current_period_start : ℕ
  pub current_period_end : ℕ
  pub cancel_at_period_end : Bool

pub record PaymentEventResponse : Type 0 where
  pub provider : Text
  pub external_id : Text
  pub subscription_id : Text
  pub plan_code : Text
  pub status : PaymentStatus
  pub kind : Text
  pub amount_minor : ℤ
  pub currency : Text
  pub occurred_at : ℕ

pub record PaymentEntitlementResponse : Type 0 where
  pub active : Bool
  pub provider : Text
  pub plan_code : Text
  pub status : SubscriptionStatus
  pub expires_at : ℕ

pub record PaymentWebhookResponse : Type 0 where
  pub provider : Text
  pub event_id : Text
  pub event_type : Text
  pub status : WebhookStatus
  pub attempts : ℕ
  pub last_error : Text
  pub last_attempt_at : Option ℕ
  pub processed_at : Option ℕ

-- `average_latency` is a number of microseconds and a number of requests, for the quotient of the
-- two in milliseconds.
pub record PaymentProviderStatus : Type 0 where
  pub name : Text
  pub ready : Bool
  pub requests : ℕ
  pub failures : ℕ
  pub average_latency : ℕ × ℕ

pub record PaymentHistoryQuery : Type 0 where
  pub limit : ℤ
  pub offset : ℤ

pub record PaymentSubscriptionQuery : Type 0 where
  pub limit : ℤ
  pub offset : ℤ

pub record PaymentEntitlementQuery : Type 0 where
  pub plan_code : Text

pub record PaymentWebhookListQuery : Type 0 where
  pub limit : ℤ
  pub offset : ℤ

pub record PaymentWebhookRetryInput : Type 0 where
  pub provider : Text
  pub event_id : Text
