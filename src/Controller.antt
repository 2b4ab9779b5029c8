-- ===== src/Controller.antt =====
-- payment-system/controllers/controller.go: the HTTP answers to the service's errors.
pub mod Requests
pub mod Handlers
pub mod Access
use procyon_modules.Base.{ℕ, ◌<◌, ◌≡◌, Bool, true, false, arith, if◌then◌else◌}
use procyon_modules.Base.Text.{Text, bytes}
use procyon_modules.Models.Errors.{Sentinel, Error, is}

-- What `apierr.New`, `NotFound`, `Wrap`, `Unauthorized` and `BadRequest` are called with.
pub data ApiError : Type 0 where
  new : ℕ → Text → Text → ApiError
  not_found : Text → ApiError
  wrap : Error → ℕ → Text → Text → ApiError
  unauthorized : Text → ApiError
  bad_request : Text → ApiError

-- The HTTP status of the answer.
abbrev pub status_of : ApiError → ℕ
status_of (new status code text) = status
status_of (not_found text) = 404
status_of (wrap e status code text) = status
status_of (unauthorized text) = 401
status_of (bad_request text) = 400

-- `paymentHTTPError`
unfoldable pub payment_http_error : Error → ApiError
payment_http_error e =
    if is e Sentinel.provider_unsupported
    then new 400 (bytes "payment_provider_disabled") (bytes "payment provider is not enabled")
    else if is e Sentinel.capability_missing
    then new 400 (bytes "payment_capability_unsupported")
        (bytes "payment capability is not supported")
    else if is e Sentinel.invalid_signature
    then new 400 (bytes "payment_signature_invalid") (bytes "invalid webhook signature")
    else if is e Sentinel.invalid_return_url
    then new 400 (bytes "payment_return_url_rejected") (bytes "return URL is not allowed")
    else if is e Sentinel.subscription_active
    then new 409 (bytes "payment_subscription_active")
        (bytes "an active subscription already exists")
    else if is e Sentinel.ownership_conflict
    then new 409 (bytes "payment_ownership_conflict")
        (bytes "payment resource belongs to another identity")
    else if is e Sentinel.product_rejected
    then new 400 (bytes "payment_product_rejected") (bytes "payment product is not allowed")
    else if is e Sentinel.idempotency_key
    then new 400 (bytes "payment_idempotency_key_invalid")
        (bytes "valid Idempotency-Key header is required")
    else if is e Sentinel.record_not_found
    then not_found (bytes "payment resource not found")
    else wrap e 500 (bytes "payment_error") (bytes "payment operation failed")

-- The errors that the service means for its callers: all but the loss of a lease.
abbrev pub is_public : Sentinel → Bool
is_public Sentinel.webhook_lease_lost = false
is_public _ = true

-- An error that is, however it is wrapped or joined, one that the service means for its callers is
-- answered as the caller's, never as an internal one.
pub public_error_status :
    (e : Error) (x : Sentinel)
    → is_public x ≡ true
    → is e x ≡ true
    → status_of (payment_http_error e) < 500
unfolding payment_http_error
public_error_status e Sentinel.provider_unsupported p h = ground (arith, h)
public_error_status e Sentinel.capability_missing p h = ground (arith, h)
public_error_status e Sentinel.invalid_signature p h = ground (arith, h)
public_error_status e Sentinel.invalid_return_url p h = ground (arith, h)
public_error_status e Sentinel.subscription_active p h = ground (arith, h)
public_error_status e Sentinel.ownership_conflict p h = ground (arith, h)
public_error_status e Sentinel.product_rejected p h = ground (arith, h)
public_error_status e Sentinel.idempotency_key p h = ground (arith, h)
public_error_status e Sentinel.webhook_lease_lost p h = cc
public_error_status e Sentinel.record_not_found p h = ground (arith, h)
