-- ===== src/Controller/Requests.antt =====
-- What the handlers of controller.go share: the request as they read it, the guard of the identity,
-- the bound input, and the answer.
use procyon_modules.Base.{ℕ, Option, none, some, List, [], leb, length, if◌then◌else◌}
use procyon_modules.Base.Text.{Text, bytes, ◌==◌, is_empty, trim_space}
use procyon_modules.Models.Inputs.{
  PaymentCheckoutInput, PaymentSubscriptionCheckoutInput, PaymentCancelSubscriptionInput,
  PaymentPortalInput, PaymentStoreVerificationInput, PaymentHistoryQuery, PaymentSubscriptionQuery,
  PaymentEntitlementQuery, PaymentWebhookListQuery, PaymentWebhookRetryInput, PaymentPriceOption,
  PaymentSubscriptionResponse, PaymentEventResponse, PaymentEntitlementResponse,
  PaymentWebhookResponse, PaymentProviderStatus,
}
use procyon_modules.Models.Errors.{Error}
use procyon_modules.Exec.{Result, ok, err, World, Exec}
use procyon_modules.Controller.{ApiError, payment_http_error}

-- `ctx.Bind` of a value, which may fail, and `ctx.Validate`.
pub record Form (A : Type 0) : Type 0 where
  pub bind : Option A
  pub validate : A → Option Error

-- The identity of a session; `email` is the trait of that name, if it is a text.
pub record Identity : Type 0 where
  pub id : Text
  pub email : Option Text

-- `provider` is the parameter of the path. There is no identity where there is no session, or one
-- without an identity.
pub record Request : Type 0 where
  pub provider : Text
  pub header : Text → Text
  pub body : Result Text
  pub identity : Option Identity
  pub checkout : Form PaymentCheckoutInput
  pub subscription_checkout : Form PaymentSubscriptionCheckoutInput
  pub cancellation : Form PaymentCancelSubscriptionInput
  pub portal : Form PaymentPortalInput
  pub verification : Form PaymentStoreVerificationInput
  pub history : Form PaymentHistoryQuery
  pub subscriptions : Form PaymentSubscriptionQuery
  pub plan : Form PaymentEntitlementQuery
  pub webhooks : Form PaymentWebhookListQuery
  pub retry : Form PaymentWebhookRetryInput

pub data Payload : Type 0 where
  price_items : List PaymentPriceOption → Payload
  link : Text → Text → Payload
  subscription_items : List PaymentSubscriptionResponse → Payload
  payment_items : List PaymentEventResponse → Payload
  entitled : PaymentEntitlementResponse → Payload
  webhook_items : List PaymentWebhookResponse → Payload
  status_items : List PaymentProviderStatus → Payload

-- An answer, or the error that the handler returns to echo.
pub data Response : Type 0 where
  json : ℕ → Payload → Response
  no_content : ℕ → Response
  failed : ApiError → Response

abbrev pub Handler : Type 0
Handler = World → Response × World

abbrev pub email_of : Option Text → Text
email_of none = []
email_of (some email) = trim_space email

-- `paymentIdentity`: the id and the e-mail address.
unfoldable pub payment_identity : Option Identity → Option (Text × Text)
unfolding trim_space
payment_identity none = none
payment_identity (some identity) =
    if is_empty (trim_space identity.id)
    then none
    else some (trim_space identity.id, email_of identity.email)

abbrev pub with_identity : Option (Text × Text) → (Text → Text → Handler) → Handler
with_identity none handler w = (failed (ApiError.unauthorized (bytes "unauthorized")), w)
with_identity (some (identity_id, email)) handler w = handler identity_id email w

-- The guard at the head of a handler: `if !ok { return apierr.Unauthorized("unauthorized") }`.
unfoldable pub authenticated : Request → (Text → Text → Handler) → Handler
unfolding payment_identity
authenticated request handler = with_identity (payment_identity request.identity) handler

abbrev pub validated : {A : Type 0} → Option Error → A → (A → Handler) → Handler
validated none input handler w = handler input w
validated (some e) input handler w =
    (failed (ApiError.wrap e 400 (bytes "validation_failed") (bytes "validation failed")), w)

abbrev pub with_form :
    {A : Type 0} → Text → (A → A) → (A → Option Error) → Option A → (A → Handler) → Handler
with_form text complete validate none handler w = (failed (ApiError.bad_request text), w)
with_form text complete validate (some input) handler w =
    validated (validate (complete input)) (complete input) handler w

-- `Bind`, what the handler adds, and `Validate`.
unfoldable pub submitted : {A : Type 0} → Text → (A → A) → Form A → (A → Handler) → Handler
submitted text complete form handler = with_form text complete form.validate form.bind handler

abbrev pub as_bound : {A : Type 0} → A → A
as_bound input = input

abbrev pub respond : {A : Type 0} → (A → Response) → Result A → Response
respond answer (ok a) = answer a
respond answer (err e) = failed (payment_http_error e)

-- The call of the service, and the answer to what it returns.
unfoldable pub answered : {A : Type 0} → (A → Response) → Exec A → Handler
unfolding payment_http_error
answered answer call w = let (r, w') = call w in (respond answer r, w')

abbrev pub invalid_request : Text
invalid_request = bytes "invalid request"

abbrev pub invalid_query : Text
invalid_query = bytes "invalid query"

-- The header in which a provider signs.
abbrev pub signature_of : Request → Text → Text
signature_of request provider =
    if provider == bytes "stripe"
    then request.header (bytes "Stripe-Signature")
    else if provider == bytes "google"
    then request.header (bytes "Authorization")
    else []

-- `http.MaxBytesReader`: a longer body is an error.
abbrev pub within_limit : Result Text → Option Text
within_limit (err e) = none
within_limit (ok payload) = if leb (length payload) 262144 then some payload else none
