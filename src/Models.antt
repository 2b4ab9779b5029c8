-- ===== src/Models.antt =====
-- payment-system/models: the rows of the three tables, their statuses, and the errors.
mod Status
pub mod Errors
pub mod Inputs
pub use Status.*
use procyon_modules.Base.{ℕ, Bool, false, Option, none, []}
use procyon_modules.Base.Int.{ℤ, pos}
use procyon_modules.Base.Text.{Text}

-- A `time.Time` in UTC: nanoseconds since Go's zero time, which is 0. A `time.Duration` is a ℤ.
abbrev pub Time : Type 0
Time = ℕ

-- models.go
pub record PaymentEvent : Type 0 where
  pub id : ℕ
  pub provider : Text
  pub external_id : Text
  pub identity_id : Text
  pub customer_id : Text
  pub subscription_id : Text
  pub price_id : Text
  pub status : PaymentStatus
  pub kind : Text
  pub amount_minor : ℤ
  pub currency : Text
  pub occurred_at : Time
  pub created_at : Time
  pub updated_at : Time

-- A nil payload is the empty one.
pub record PaymentWebhookEvent : Type 0 where
  pub id : ℕ
  pub provider : Text
  pub event_id : Text
  pub event_type : Text
  pub status : WebhookStatus
  pub attempts : ℕ
  pub payload : Text
  pub signature : Text
  pub lease_id : Text
  pub processing_started_at : Option Time
  pub last_attempt_at : Option Time
  pub processed_at : Option Time
  pub last_error : Text
  pub created_at : Time
  pub updated_at : Time

pub record PaymentSubscription : Type 0 where
  pub id : ℕ
  pub provider : Text
  pub external_subscription_id : Text
  pub identity_id : Text
  pub customer_id : Text
  pub plan_code : Text
  pub status : SubscriptionStatus
  pub current_period_start : Time
  pub current_period_end : Time
  pub cancel_at : Option Time
  pub cancel_at_period_end : Bool
  pub provider_data : Text
  pub created_at : Time
  pub updated_at : Time

pub record PaymentModuleMigration : Type 0 where
  pub version : ℕ
  pub applied_at : Time

-- The literals `models.PaymentEvent{…}` and the like leave what they do not name at its zero value.
abbrev pub zero_payment : PaymentEvent
zero_payment = record {
  id = 0;
  provider = [];
  external_id = [];
  identity_id = [];
  customer_id = [];
  subscription_id = [];
  price_id = [];
  status = PaymentStatus.other [];
  kind = [];
  amount_minor = pos 0;
  currency = [];
  occurred_at = 0;
  created_at = 0;
  updated_at = 0;
}

abbrev pub zero_webhook : PaymentWebhookEvent
zero_webhook = record {
  id = 0;
  provider = [];
  event_id = [];
  event_type = [];
  status = WebhookStatus.other [];
  attempts = 0;
  payload = [];
  signature = [];
  lease_id = [];
  processing_started_at = none;
  last_attempt_at = none;
  processed_at = none;
  last_error = [];
  created_at = 0;
  updated_at = 0;
}

abbrev pub zero_subscription : PaymentSubscription
zero_subscription = record {
  id = 0;
  provider = [];
  external_subscription_id = [];
  identity_id = [];
  customer_id = [];
  plan_code = [];
  status = SubscriptionStatus.other [];
  current_period_start = 0;
  current_period_end = 0;
  cancel_at = none;
  cancel_at_period_end = false;
  provider_data = [];
  created_at = 0;
  updated_at = 0;
}
