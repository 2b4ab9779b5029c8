-- ===== src/Providers/Stripe.antt =====
-- payment-system/services/provider_stripe.go: the provider, and the parts of Stripe's objects that
-- it reads. Stripe's client, its check of a signature, the event bus and json.Unmarshal are
-- parameters; a constant of Stripe's package is a constructor.
pub mod Sales
pub mod Offers
pub mod Subscriptions
pub mod Purchases
pub mod Events
pub mod Publication
pub mod Entitlement
pub mod Reports
pub mod Reconciliation
use procyon_modules.Base.{ℕ, Bool, Option, List}
use procyon_modules.Base.Int.{ℤ}
use procyon_modules.Base.Text.{Text, bytes}
use procyon_modules.Models.{Time}
use procyon_modules.Exec.{Result, Exec}
use procyon_modules.Config.{Product}
use procyon_modules.Providers.Calls.{Metadata}

pub data EventType : Type 0 where
  payment_intent_created payment_intent_succeeded : EventType
  payment_intent_payment_failed payment_intent_canceled : EventType
  checkout_session_completed checkout_session_async_payment_succeeded : EventType
  checkout_session_async_payment_failed : EventType
  invoice_paid invoice_payment_failed : EventType
  customer_subscription_updated customer_subscription_deleted : EventType
  refund_created refund_updated refund_failed : EventType
  charge_dispute_created charge_dispute_updated charge_dispute_closed : EventType
  charge_dispute_funds_withdrawn charge_dispute_funds_reinstated : EventType
  other : Text → EventType

pub data StripeSubscriptionStatus : Type 0 where
  active trialing past_due unpaid canceled incomplete_expired : StripeSubscriptionStatus
  other : Text → StripeSubscriptionStatus

pub data CheckoutMode : Type 0 where
  payment subscription : CheckoutMode
  other : Text → CheckoutMode

pub data CheckoutPaymentStatus : Type 0 where
  paid no_payment_required : CheckoutPaymentStatus
  other : Text → CheckoutPaymentStatus

pub data RefundStatus : Type 0 where
  failed : RefundStatus
  other : Text → RefundStatus

pub data DisputeStatus : Type 0 where
  won prevented : DisputeStatus
  other : Text → DisputeStatus

-- A pointer to an object of which only the id is read is the id, if there is one.
pub record PaymentIntent : Type 0 where
  pub id : Text
  pub metadata : Metadata
  pub customer : Option Text
  pub amount : ℤ
  pub currency : Text

-- A line item that is nil or has no price is none, and else the id of its price.
pub record CheckoutSession : Type 0 where
  pub id : Text
  pub payment_intent : Option Text
  pub invoice : Option Text
  pub metadata : Metadata
  pub subscription : Option Text
  pub customer : Option Text
  pub amount_total : ℤ
  pub currency : Text
  pub mode : CheckoutMode
  pub payment_status : CheckoutPaymentStatus
  pub line_items : List (Option Text)

-- `invoice.Parent.SubscriptionDetails`
pub record SubscriptionDetails : Type 0 where
  pub subscription : Option Text
  pub metadata : Metadata

pub record Invoice : Type 0 where
  pub id : Text
  pub amount_due : ℤ
  pub amount_paid : ℤ
  pub customer : Option Text
  pub currency : Text
  pub details : Option SubscriptionDetails

pub record ItemPrice : Type 0 where
  pub id : Text
  pub metadata : Metadata

pub record SubscriptionItem : Type 0 where
  pub current_period_start : ℤ
  pub current_period_end : ℤ
  pub price : Option ItemPrice

pub record StripeSubscription : Type 0 where
  pub id : Text
  pub metadata : Metadata
  pub customer : Option Text
  pub status : StripeSubscriptionStatus
  pub cancel_at_period_end : Bool
  pub cancel_at : ℤ
  pub items : List (Option SubscriptionItem)

pub record Refund : Type 0 where
  pub id : Text
  pub status : RefundStatus
  pub metadata : Metadata
  pub payment_intent : Option PaymentIntent
  pub amount : ℤ
  pub currency : Text

pub record Dispute : Type 0 where
  pub id : Text
  pub status : DisputeStatus
  pub metadata : Metadata
  pub payment_intent : Option PaymentIntent
  pub amount : ℤ
  pub currency : Text

-- `raw` is `event.Data.Raw`.
pub record StripeEvent : Type 0 where
  pub id : Text
  pub kind : EventType
  pub created : ℤ
  pub raw : Text

-- The interval of a recurring price is its count and its unit, the product its id and its name.
pub record StripePrice : Type 0 where
  pub id : Text
  pub currency : Text
  pub unit_amount : ℤ
  pub recurring : Option (Text × Text)
  pub nickname : Text
  pub metadata : Metadata
  pub kind : Text
  pub product : Option (Text × Text)

-- `stripe.CheckoutSessionCreateParams`, as far as it is set; `data_metadata` is that of the payment
-- intent or of the subscription.
pub record SessionParams : Type 0 where
  pub mode : CheckoutMode
  pub price : Text
  pub quantity : ℕ
  pub success_url : Text
  pub cancel_url : Text
  pub metadata : Metadata
  pub data_metadata : Metadata
  pub customer : Option Text
  pub customer_email : Option Text
  pub trial_end : Option ℤ
  pub idempotency_key : Text

-- payment-system/contracts/events.go
pub record PurchaseCompletedV1 : Type 0 where
  pub provider : Text
  pub external_payment_id : Text
  pub checkout_id : Text
  pub identity_id : Text
  pub price_id : Text
  pub plan_code : Text
  pub amount_minor : ℤ
  pub currency : Text
  pub completed_at : Time

abbrev pub purchase_completed_v1_topic : Text
purchase_completed_v1_topic = bytes "payment.purchase.completed.v1"

-- `coreevents.Message` with this payload.
pub record PurchaseMessage : Type 0 where
  pub id : Text
  pub occurred_at : Time
  pub source : Text
  pub correlation_id : Text
  pub payload : PurchaseCompletedV1

-- `products` are those of the provider in the configuration. A list that the client goes through
-- may end in an error. `line_items` is none where the client is missing.
pub record StripePaymentProvider : Type 0 where
  pub webhook_secret : Text
  pub trial_days : ℕ
  pub products : List Product
  pub webhook_lease : ℤ
  pub event_bus : Option (Text → PurchaseMessage → Exec (Unit {0}))
  pub resolve_checkout_price : Option (Text → Exec Text)
  pub construct_event : Text → Text → Text → Exec StripeEvent
  pub type_name : EventType → Text
  pub list_prices : Exec (List (Result StripePrice))
  pub create_session : SessionParams → Exec Text
  pub update_subscription : Text → Exec (Unit {0})
  pub cancel_subscription : Text → Exec (Unit {0})
  pub create_portal_session : Text → Text → Exec Text
  pub retrieve_subscription : Text → Exec StripeSubscription
  pub line_items : Option (Text → Exec (List (Result (Option Text))))
  pub unmarshal_intent : Text → Result PaymentIntent
  pub unmarshal_session : Text → Result CheckoutSession
  pub unmarshal_invoice : Text → Result Invoice
  pub unmarshal_subscription : Text → Result StripeSubscription
  pub unmarshal_refund : Text → Result Refund
  pub unmarshal_dispute : Text → Result Dispute

abbrev pub stripe : Text
stripe = bytes "stripe"
