-- ===== src/Controller/Access.antt =====
-- Which handlers of controller.go want an identity, and what they do without one.
use procyon_modules.Base.{
  ◌⊎◌, inl, inr, Option-cases, ℕ, ◌≡◌, refl, Bool, true, false, Option, none, some,
}
use procyon_modules.Base.Text.{Text, bytes}
use procyon_modules.Exec.{World}
use procyon_modules.Service.{PaymentSystemService}
use procyon_modules.Controller.{ApiError}
use procyon_modules.Controller.Requests.{Request, Response, failed, payment_identity, authenticated}
use procyon_modules.Controller.Handlers.{
  handle_price_list, handle_create_checkout, handle_create_subscription, handle_subscription_list,
  handle_cancel_subscription, handle_create_portal_session, handle_verify_store_purchase,
  handle_notify, handle_payment_history, handle_entitlement, handle_provider_status,
  handle_failed_webhooks, handle_retry_webhook, handle_reconcile,
}

-- The methods of the controller.
pub data Endpoint : Type 0 where
  price_list create_checkout create_subscription subscription_list : Endpoint
  cancel_subscription create_portal_session verify_store_purchase notify : Endpoint
  payment_history entitlement provider_status failed_webhooks retry_webhook reconcile : Endpoint

-- The call of a method.
unfoldable pub call_endpoint :
    PaymentSystemService → ℕ → Endpoint → Request → World → Option (Response × World)
call_endpoint s fuel Endpoint.price_list request w = some (handle_price_list s request w)
call_endpoint s fuel Endpoint.create_checkout request w = some (handle_create_checkout s request w)
call_endpoint s fuel Endpoint.create_subscription request w =
    some (handle_create_subscription s request w)
call_endpoint s fuel Endpoint.subscription_list request w =
    some (handle_subscription_list s request w)
call_endpoint s fuel Endpoint.cancel_subscription request w =
    some (handle_cancel_subscription s request w)
call_endpoint s fuel Endpoint.create_portal_session request w =
    some (handle_create_portal_session s request w)
call_endpoint s fuel Endpoint.verify_store_purchase request w =
    some (handle_verify_store_purchase s request w)
call_endpoint s fuel Endpoint.notify request w = some (handle_notify s request w)
call_endpoint s fuel Endpoint.payment_history request w = some (handle_payment_history s request w)
call_endpoint s fuel Endpoint.entitlement request w = some (handle_entitlement s request w)
call_endpoint s fuel Endpoint.provider_status request w = some (handle_provider_status s request w)
call_endpoint s fuel Endpoint.failed_webhooks request w = some (handle_failed_webhooks s request w)
call_endpoint s fuel Endpoint.retry_webhook request w = some (handle_retry_webhook s request w)
call_endpoint s fuel Endpoint.reconcile request w = handle_reconcile s fuel request w

-- The methods for signed-in identities.
abbrev pub wants_identity : Endpoint → Bool
wants_identity Endpoint.price_list = false
wants_identity Endpoint.notify = false
wants_identity Endpoint.provider_status = false
wants_identity Endpoint.failed_webhooks = false
wants_identity Endpoint.retry_webhook = false
wants_identity Endpoint.reconcile = false
wants_identity _ = true

-- A request has an identity, or its answer is "unauthorized", and it has no effect.
abbrev pub IsRefused : PaymentSystemService → Endpoint → Type 0
IsRefused s e =
    (fuel : ℕ) (request : Request) (w : World)
    → ((identity : Text × Text) × (payment_identity request.identity ≡ some identity))
      ⊎ (call_endpoint s fuel e request w
          ≡ some (failed (ApiError.unauthorized (bytes "unauthorized")), w))

unidentified :
    (s : PaymentSystemService) (e : Endpoint) (fuel : ℕ) (request : Request) (w : World)
    → wants_identity e ≡ true
    → payment_identity request.identity ≡ none
    → call_endpoint s fuel e request w
      ≡ some (failed (ApiError.unauthorized (bytes "unauthorized")), w)
unfolding call_endpoint handle_create_checkout handle_create_subscription handle_subscription_list
    handle_cancel_subscription handle_create_portal_session handle_verify_store_purchase
    handle_payment_history handle_entitlement authenticated
unidentified s Endpoint.create_checkout fuel request w h n = rw n refl
unidentified s Endpoint.create_subscription fuel request w h n = rw n refl
unidentified s Endpoint.subscription_list fuel request w h n = rw n refl
unidentified s Endpoint.cancel_subscription fuel request w h n = rw n refl
unidentified s Endpoint.create_portal_session fuel request w h n = rw n refl
unidentified s Endpoint.verify_store_purchase fuel request w h n = rw n refl
unidentified s Endpoint.payment_history fuel request w h n = rw n refl
unidentified s Endpoint.entitlement fuel request w h n = rw n refl
unidentified s Endpoint.price_list fuel request w h n = cc
unidentified s Endpoint.notify fuel request w h n = cc
unidentified s Endpoint.provider_status fuel request w h n = cc
unidentified s Endpoint.failed_webhooks fuel request w h n = cc
unidentified s Endpoint.retry_webhook fuel request w h n = cc
unidentified s Endpoint.reconcile fuel request w h n = cc

-- Each method for signed-in identities refuses a request without a session, or with a blank id, by
-- "unauthorized", and nothing else happens.
pub call_endpoint-IsRefused :
    (s : PaymentSystemService) (e : Endpoint) → wants_identity e ≡ true → IsRefused s e
call_endpoint-IsRefused s e h fuel request w =
    elim (Option-cases (payment_identity request.identity)) [
      | inl n ↦ inr (unidentified s e fuel request w h n)
      | inr identified ↦ inl identified
    ]
