-- ===== src/Service/Checkout.antt =====
-- The calls of the service that reach a provider: each checks its guards first.
pub mod Guards
pub mod Entitled
use procyon_modules.Base.{Bool, true, false, not, Option, none, some, List, [], ◌∷◌, if◌then◌else◌}
use procyon_modules.Base.Text.{Text, bytes, ◌==◌, is_empty, trim_space}
use procyon_modules.Models.Errors.{Sentinel, Error, sentinel, message}
use procyon_modules.Models.Inputs.{
  PaymentCheckoutInput, PaymentSubscriptionCheckoutInput, PaymentCancelSubscriptionInput,
  PaymentPortalInput, PaymentStoreVerificationInput, PaymentPriceOption,
}
use procyon_modules.Exec.{Result, Exec, pure, raise, from, ◌>>=◌, ◌>>◌}
use procyon_modules.Exec.Results.{require}
use procyon_modules.Config.{product}
use procyon_modules.Store.Webhooks.{get_webhook, mark_webhook_for_retry}
use procyon_modules.Store.Subscriptions.{has_active_subscription, get_subscription, customer_id}
use procyon_modules.Service.{
  PaymentSystemService, Provider, SubscriptionCapability, provider, capability, measured,
  validate_return_urls,
}

module _ (s : PaymentSystemService) where
  -- `Prices`
  unfoldable pub prices : Text → Exec (List PaymentPriceOption)
  unfolding provider capability measured
  prices provider_name = do
    p ← provider s provider_name
    call ← capability p.prices
    measured provider_name call

  -- `CreateCheckout`
  unfoldable pub create_checkout : Text → PaymentCheckoutInput → Exec Text
  create_checkout identity_id input = do
    from (validate_return_urls s (input.success_url ∷ input.cancel_url ∷ []))
    p ← provider s input.provider
    call ← capability p.create_checkout
    from (
        require (not (is_empty (trim_space input.idempotency_key)))
          (sentinel Sentinel.idempotency_key))
    from (product s.config input.provider input.price_id (bytes "one_time"))
    measured input.provider
        (call identity_id input.price_id input.success_url input.cancel_url input.idempotency_key)

  -- `CreateSubscription`
  unfoldable pub create_subscription : Text → Text → PaymentSubscriptionCheckoutInput → Exec Text
  create_subscription identity_id email input = do
    from (validate_return_urls s (input.success_url ∷ input.cancel_url ∷ []))
    active ← has_active_subscription identity_id
    from (require (not active) (sentinel Sentinel.subscription_active))
    p ← provider s input.provider
    call ← capability p.subscriptions
    from (
        require (not (is_empty (trim_space input.idempotency_key)))
          (sentinel Sentinel.idempotency_key))
    from (product s.config input.provider input.price_id (bytes "subscription"))
    measured input.provider (
        call.create_subscription identity_id email input.price_id input.success_url input.cancel_url
          input.idempotency_key)

  -- `CancelSubscription`
  unfoldable pub cancel_subscription : Text → PaymentCancelSubscriptionInput → Exec (Unit {0})
  cancel_subscription identity_id input = do
    get_subscription input.provider input.subscription_id identity_id
    p ← provider s input.provider
    call ← capability p.subscriptions
    measured input.provider
        (call.cancel_subscription input.subscription_id input.cancel_at_period_end)

  -- `CreatePortal`
  unfoldable pub create_portal : Text → PaymentPortalInput → Exec Text
  create_portal identity_id input = do
    from (validate_return_urls s (input.return_url ∷ []))
    p ← provider s input.provider
    call ← capability p.create_portal
    customer ← customer_id input.provider identity_id
    from (require (not (is_empty customer)) (message (bytes "payment customer not found")))
    measured input.provider (call customer input.return_url)

  -- `Notify`
  unfoldable pub notify : Text → Text → Text → Exec (Unit {0})
  notify provider_name payload signature = do
    p ← provider s provider_name
    call ← capability p.handle_webhook
    measured provider_name (call payload signature)

  -- The lookup of the product that is bought, where one is named.
  abbrev check_product : Text → Text → Exec (Unit {0})
  check_product provider_name product_id =
      if is_empty product_id
      then pure tt
      else from (product s.config provider_name product_id (bytes "subscription")) >> pure tt

  -- `VerifyStorePurchase`
  unfoldable pub verify_store_purchase :
      Text → Text → PaymentStoreVerificationInput → Exec (Unit {0})
  verify_store_purchase provider_name identity_id input = do
    check_product provider_name input.product_id
    p ← provider s provider_name
    call ← capability p.verify_store_purchase
    measured provider_name (call identity_id input)

  -- `RetryWebhook`
  unfoldable pub retry_webhook : Text → Text → Exec (Unit {0})
  retry_webhook provider_name event_id = do
    event ← get_webhook provider_name event_id
    mark_webhook_for_retry provider_name event_id
    p ← provider s provider_name
    call ← capability p.handle_webhook
    call event.payload event.signature
