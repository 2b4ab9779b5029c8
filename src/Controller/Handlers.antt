-- ===== src/Controller/Handlers.antt =====
-- The handlers of payment-system/controllers/controller.go.
use procyon_modules.Base.{ℕ, Option, none, some}
use procyon_modules.Base.Text.{Text, bytes, trim_space, normalized}
use procyon_modules.Exec.{Result, World}
use procyon_modules.Service.{PaymentSystemService}
use procyon_modules.Service.Checkout.{
  prices, create_checkout, create_subscription, cancel_subscription, create_portal, notify,
  verify_store_purchase, retry_webhook,
}
use procyon_modules.Service.Queries.{
  payment_history, list_subscription_responses, failed_webhooks, entitlement,
}
use procyon_modules.Service.Statuses.{provider_statuses}
use procyon_modules.Service.Reconcile.{reconcile}
use procyon_modules.Controller.{ApiError, payment_http_error}
use procyon_modules.Controller.Requests.{
  Request, Payload, Response, Handler, authenticated, submitted, as_bound, respond, answered,
  invalid_request, invalid_query, signature_of, within_limit, json, no_content, failed,
}

module _ (s : PaymentSystemService) where
  -- `PriceList`
  unfoldable pub handle_price_list : Request → Handler
  unfolding answered
  handle_price_list request =
      answered (λ items. json 200 (Payload.price_items items)) (prices s request.provider)

  -- `CreateCheckout`
  unfoldable pub handle_create_checkout : Request → Handler
  unfolding authenticated submitted answered
  handle_create_checkout request = authenticated request λ identity_id email.
      submitted invalid_request
        (λ input. record input {
          idempotency_key = trim_space (request.header (bytes "Idempotency-Key"));
        })
        request.checkout
        λ input.
          answered (λ url. json 201 (Payload.link (bytes "checkout_url") url))
            (create_checkout s identity_id input)

  -- `CreateSubscription`
  unfoldable pub handle_create_subscription : Request → Handler
  unfolding authenticated submitted answered
  handle_create_subscription request = authenticated request λ identity_id email.
      submitted invalid_request
        (λ input. record input {
          idempotency_key = trim_space (request.header (bytes "Idempotency-Key"));
        })
        request.subscription_checkout
        λ input.
          answered (λ url. json 201 (Payload.link (bytes "checkout_url") url))
            (create_subscription s identity_id email input)

  -- `SubscriptionList`
  unfoldable pub handle_subscription_list : Request → Handler
  unfolding authenticated submitted answered
  handle_subscription_list request = authenticated request λ identity_id email.
      submitted invalid_query as_bound request.subscriptions λ query.
        answered (λ items. json 200 (Payload.subscription_items items))
          (list_subscription_responses identity_id query.limit query.offset)

  -- `CancelSubscription`
  unfoldable pub handle_cancel_subscription : Request → Handler
  unfolding authenticated submitted answered
  handle_cancel_subscription request = authenticated request λ identity_id email.
      submitted invalid_request as_bound request.cancellation
        λ input. answered (λ u. no_content 204) (cancel_subscription s identity_id input)

  -- `CreatePortalSession`
  unfoldable pub handle_create_portal_session : Request → Handler
  unfolding authenticated submitted answered
  handle_create_portal_session request = authenticated request λ identity_id email.
      submitted invalid_request as_bound request.portal λ input.
        answered (λ url. json 201 (Payload.link (bytes "portal_url") url))
          (create_portal s identity_id input)

  -- `VerifyStorePurchase`
  unfoldable pub handle_verify_store_purchase : Request → Handler
  unfolding authenticated submitted answered
  handle_verify_store_purchase request = authenticated request λ identity_id email.
      submitted invalid_request as_bound request.verification λ input.
        answered (λ u. no_content 204) (verify_store_purchase s request.provider identity_id input)

  abbrev notify_with : Text → Text → Option Text → Handler
  notify_with provider signature none w =
      (failed (ApiError.bad_request (bytes "invalid webhook body")), w)
  notify_with provider signature (some payload) w =
      answered (λ u. no_content 200) (notify s provider payload signature) w

  -- `Notify`
  unfoldable pub handle_notify : Request → Handler
  unfolding answered normalized
  handle_notify request =
      let provider = normalized request.provider in
      notify_with provider (signature_of request provider) (within_limit request.body)

  -- `PaymentHistory`
  unfoldable pub handle_payment_history : Request → Handler
  unfolding authenticated submitted answered
  handle_payment_history request = authenticated request λ identity_id email.
      submitted invalid_query as_bound request.history λ query.
        answered (λ items. json 200 (Payload.payment_items items))
          (payment_history identity_id query.limit query.offset)

  -- `Entitlement`
  unfoldable pub handle_entitlement : Request → Handler
  unfolding authenticated submitted answered
  handle_entitlement request = authenticated request λ identity_id email.
      submitted invalid_query as_bound request.plan λ query.
        answered (λ item. json 200 (Payload.entitled item))
          (entitlement identity_id query.plan_code)

  -- `ProviderStatus`
  unfoldable pub handle_provider_status : Request → Handler
  unfolding provider_statuses
  handle_provider_status request w = (json 200 (Payload.status_items (provider_statuses s w)), w)

  -- `FailedWebhooks`
  unfoldable pub handle_failed_webhooks : Request → Handler
  unfolding submitted answered
  handle_failed_webhooks request = submitted invalid_query as_bound request.webhooks λ query.
      answered (λ items. json 200 (Payload.webhook_items items))
        (failed_webhooks query.limit query.offset)

  -- `RetryWebhook`
  unfoldable pub handle_retry_webhook : Request → Handler
  unfolding submitted answered
  handle_retry_webhook request =
      submitted invalid_request as_bound request.retry
        λ input. answered (λ u. no_content 204) (retry_webhook s input.provider input.event_id)

  abbrev reconciled : Option (Result (Unit {0}) × World) → Option (Response × World)
  reconciled none = none
  reconciled (some (r, w)) = some (respond (λ u. no_content 204) r, w)

  -- `Reconcile`; none is where its fuel is not enough.
  unfoldable pub handle_reconcile : ℕ → Request → World → Option (Response × World)
  unfolding payment_http_error
  handle_reconcile fuel request w = reconciled (reconcile s fuel w)
