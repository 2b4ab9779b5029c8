-- ===== src/Models/Status.antt =====
-- The status types of payment-system/models/models.go, which are strings with named constants:
-- `other` stands for any other string, the empty one included.
use procyon_modules.Base.{Bool, true, false}
use procyon_modules.Base.Text.{Text}

pub data WebhookStatus : Type 0 where
  processing succeeded failed : WebhookStatus
  other : Text → WebhookStatus

pub data PaymentStatus : Type 0 where
  pending succeeded failed canceled refunded disputed : PaymentStatus
  other : Text → PaymentStatus

pub data SubscriptionStatus : Type 0 where
  active trialing past_due canceled expired refunded revoked : SubscriptionStatus
  other : Text → SubscriptionStatus

-- `status = 'FAILED'` and `status = 'PROCESSING'`, as the queries test them.
abbrev pub is_failed : WebhookStatus → Bool
is_failed WebhookStatus.failed = true
is_failed _ = false

abbrev pub is_processing : WebhookStatus → Bool
is_processing WebhookStatus.processing = true
is_processing _ = false

abbrev pub is_succeeded : WebhookStatus → Bool
is_succeeded WebhookStatus.succeeded = true
is_succeeded _ = false
