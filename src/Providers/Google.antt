-- ===== src/Providers/Google.antt =====
-- payment-system/services/provider_google.go: the provider and the objects of Google Play that it
-- reads. The client of the Play API, the check of the push token, SHA-256, AES-GCM and the decoders
-- are parameters.
pub mod Purchases
pub mod Notifications
pub mod Owners
pub mod Tokens
use procyon_modules.Base.{
  ℕ, Bool, true, false, ◌&&◌, ◌||◌, not, Option, none, some, List, [], ◌∷◌, ◌++◌, leb, eqb,
  if◌then◌else◌, length, take, drop,
}
use procyon_modules.Base.Int.{ℤ, pos, negsuc}
use procyon_modules.Base.Text.{Text, bytes, ◌==◌, is_empty, trim_space}
use procyon_modules.Models.{
  Time, PaymentStatus, SubscriptionStatus, WebhookStatus, PaymentEvent, PaymentSubscription,
  PaymentWebhookEvent,
}
use procyon_modules.Models.Inputs.{PaymentStoreVerificationInput}
use procyon_modules.Models.Errors.{Sentinel, Error, sentinel, message}
use procyon_modules.Exec.{
  Result, ok, err, World, Exec, pure, raise, from, time_now, random_bytes, ◌>>=◌, ◌>>◌,
}
use procyon_modules.Exec.Results.{require, wrap}
use procyon_modules.Config.{Product, RuntimeConfig, product}
use procyon_modules.Store.Webhooks.{hex}
use procyon_modules.Store.Payments.{upsert_payment}
use procyon_modules.Store.Subscriptions.{upsert_subscription, get_subscription_by_external}
use procyon_modules.Providers.Delivery.{deliver}

pub record LineItem : Type 0 where
  pub product_id : Text
  pub expiry_time : Text
  pub auto_renew_enabled : Bool
  pub latest_successful_order_id : Text

-- `androidpublisher.SubscriptionPurchaseV2`, as far as it is read; an absent account id is empty.
pub record SubscriptionPurchase : Type 0 where
  pub obfuscated_external_account_id : Text
  pub line_items : List LineItem
  pub acknowledgement_state : Text
  pub start_time : Text
  pub subscription_state : Text
  pub latest_order_id : Text

-- `googleDeveloperNotification`: a voided purchase is its token and order, a subscription the
-- decimal digits of its notification type and its token.
pub record DeveloperNotification : Type 0 where
  pub package_name : Text
  pub test : Bool
  pub voided : Option (Text × Text)
  pub subscription : Option (Text × Text)

-- AES-GCM under the provider's key: the arguments are the nonce, the text and the associated data.
pub record Gcm : Type 0 where
  pub nonce_size : ℕ
  pub seal : Text → Text → Text → Text
  pub open_sealed : Text → Text → Text → Result Text

pub record GooglePaymentProvider : Type 0 where
  pub package_name : Text
  pub pubsub_audience : Text
  pub config : RuntimeConfig
  pub webhook_lease : ℤ
  pub validate_push_token : Text → Text → Exec (Unit {0})
  pub parse_envelope : Text → Option (Text × Text)
  pub decode_base64 : Text → Result Text
  pub parse_notification : Text → Result DeveloperNotification
  pub get_purchase : Text → Text → Exec SubscriptionPurchase
  pub acknowledge : Text → Text → Text → Exec (Unit {0})
  pub acknowledge_already_done : Error → Bool
  pub parse_time : Text → Result Time
  pub sha256 : Text → List ℕ
  pub gcm : Result Gcm
  pub encode_raw : Text → Text
  pub decode_raw : Text → Result Text

abbrev pub google : Text
google = bytes "google"
