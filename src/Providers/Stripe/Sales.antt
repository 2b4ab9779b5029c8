-- ===== src/Providers/Stripe/Sales.antt =====
-- The calls of provider_stripe.go that sell: the price list with its cache, the two checkouts, the
-- billing portal and the cancellation.
use procyon_modules.Base.{
  ℕ, ◌+◌, ◌-◌, ◌*◌, Bool, true, false, ◌&&◌, ◌||◌, not, Option, none, some, List, [], ◌∷◌, ◌++◌,
  ltb, if◌then◌else◌,
}
use procyon_modules.Base.Int.{is_positive, same_int}
use procyon_modules.Base.Text.{Text, bytes, ◌==◌, is_empty, trim_space, to_lower}
use procyon_modules.Models.{Time}
use procyon_modules.Models.Inputs.{PaymentPriceOption}
use procyon_modules.Models.Errors.{Sentinel, Error, sentinel, message}
use procyon_modules.Exec.{Result, ok, err, World, Exec, pure, raise, time_now, ◌>>=◌}
use procyon_modules.Config.{Product}
use procyon_modules.Store.Subscriptions.{customer_id}
use procyon_modules.Providers.Calls.{Metadata, get, product_at, unix_seconds, first_payment_value}
use procyon_modules.Providers.Stripe.{
  StripePrice, CheckoutMode, SessionParams, StripePaymentProvider, stripe,
}

-- `p.prices` and `p.pricesAt`
pub record PriceCache : Type 0 where
  pub prices : List PaymentPriceOption
  pub prices_at : Time

abbrev is_nil : {A : Type 0} → List A → Bool
is_nil [] = true
is_nil (x ∷ xs) = false

-- `strings.EqualFold`
abbrev equal_fold : Text → Text → Bool
equal_fold s t = to_lower s == to_lower t

abbrev price_kind : Option (Text × Text) → Text
price_kind none = bytes "one_time"
price_kind (some recurring) = bytes "subscription"

abbrev price_interval : Option (Text × Text) → Text
price_interval none = []
price_interval (some (count, unit)) = count ++ b'-' ∷ unit

abbrev id_of : Option (Text × Text) → Text
id_of none = []
id_of (some (id, name)) = id

abbrev name_of : Option (Text × Text) → Text
name_of none = []
name_of (some (id, name)) = name

-- What the code says of a price that the catalog has otherwise.
abbrev mismatch : StripePrice → Text → Error
mismatch price what =
    message (bytes "Stripe price " ++ price.id ++ what ++ bytes " does not match payment catalog")

-- The three tests of a price against the catalog.
unfoldable pub currency_differs : Product → StripePrice → Bool
currency_differs q price = not (is_empty q.currency) && not (equal_fold q.currency price.currency)

unfoldable pub amount_differs : Product → StripePrice → Bool
amount_differs q price =
    is_positive q.amount_minor && not (same_int q.amount_minor price.unit_amount)

unfoldable pub kind_differs : Product → StripePrice → Bool
kind_differs q price =
    not (q.kind == price_kind price.recurring)
    || (not (is_empty q.interval) && not (q.interval == price_interval price.recurring))

-- A price of a product of the catalog, as it is offered.
unfoldable pub price_option : Product → StripePrice → PaymentPriceOption
price_option q price = record {
  id = price.id;
  amount_minor = price.unit_amount;
  currency = price.currency;
  description =
      first_payment_value
        (price.nickname ∷ get price.metadata (bytes "description") ∷ q.plan_code ∷ []);
  kind = price.kind;
  interval = price_interval price.recurring;
  product_id = id_of price.product;
  product_name = name_of price.product;
}

-- What the loop does with a price, under the product of its id.
unfoldable pub offer :
    StripePrice → Option Product → List PaymentPriceOption → Result (List PaymentPriceOption)
unfolding currency_differs amount_differs kind_differs price_option
offer price none prices = ok prices
offer price (some q) prices =
    if currency_differs q price
    then err (mismatch price (bytes " currency"))
    else if amount_differs q price
    then err (mismatch price (bytes " amount"))
    else if kind_differs q price
    then err (mismatch price (bytes " kind or interval"))
    else ok (prices ++ price_option q price ∷ [])

-- The loop over the prices that Stripe lists.
unfoldable pub offers :
    List Product
    → List (Result StripePrice)
    → List PaymentPriceOption
    → Result (List PaymentPriceOption)
unfolding offer
offers products [] prices = ok prices
offers products (err e ∷ listed) prices = err e
offers products (ok price ∷ listed) prices =
    elim (offer price (product_at products price.id) prices) [
      | ok more ↦ offers products listed more
      | err e ↦ err e
    ]

-- Half an hour.
abbrev cache_time : ℕ
cache_time = 1800000000000

-- `time.Since(p.pricesAt) < 30*time.Minute && len(p.prices) > 0`
unfoldable pub is_fresh : Time → PriceCache → Bool
is_fresh now cache = ltb (now - cache.prices_at) cache_time && not (is_nil cache.prices)

-- The prices that the loop answers with are kept, at the time after it.
abbrev pub keep_prices :
    PriceCache
    → Result (List PaymentPriceOption)
    → World
    → (Result (List PaymentPriceOption) × PriceCache) × World
keep_prices cache (err e) w = ((err e, cache), w)
keep_prices cache (ok prices) w = ((ok prices, record { prices = prices; prices_at = w.clock }), w)

-- The request for the list may fail before its first price.
abbrev pub all_offers :
    List Product → Result (List (Result StripePrice)) → Result (List PaymentPriceOption)
all_offers products (err e) = err e
all_offers products (ok listed) = offers products listed []

-- `stripeCheckoutMetadata`
unfoldable pub stripe_checkout_metadata : Text → Text → Text → Metadata
unfolding trim_space
stripe_checkout_metadata identity_id price_id plan_code =
    (bytes "identity_id", trim_space identity_id)
    ∷ (bytes "price_id", trim_space price_id)
    ∷ (bytes "plan_code", trim_space plan_code)
    ∷ []

-- The product of this id, if it is sold this way.
unfoldable pub sold_as : Text → Option Product → Exec Product
sold_as kind none = raise (sentinel Sentinel.product_rejected)
sold_as kind (some q) =
    if q.kind == kind then pure q else raise (sentinel Sentinel.product_rejected)

module _ (p : StripePaymentProvider) where
  -- `Prices`, with the cache before and after.
  unfoldable pub stripe_prices :
      PriceCache → World → (Result (List PaymentPriceOption) × PriceCache) × World
  unfolding offers is_fresh
  stripe_prices cache w =
      let (listed, w') = p.list_prices w in
      if is_fresh w.clock cache
      then ((ok cache.prices, cache), w)
      else keep_prices cache (all_offers p.products listed) w'

  abbrev session_params : CheckoutMode → Text → Text → Text → Metadata → Text → SessionParams
  session_params mode price_id success_url cancel_url metadata idempotency_key = record {
    mode = mode;
    price = price_id;
    quantity = 1;
    success_url = success_url;
    cancel_url = cancel_url;
    metadata = metadata;
    data_metadata = metadata;
    customer = none;
    customer_email = none;
    trial_end = none;
    idempotency_key = idempotency_key;
  }

  -- `CreateCheckout`
  unfoldable pub create_stripe_checkout : Text → Text → Text → Text → Text → Exec Text
  unfolding sold_as product_at stripe_checkout_metadata
  create_stripe_checkout identity_id price_id success_url cancel_url idempotency_key = do
    q ← sold_as (bytes "one_time") (product_at p.products price_id)
    p.create_session (
        session_params CheckoutMode.payment price_id success_url cancel_url
          (stripe_checkout_metadata identity_id price_id q.plan_code) idempotency_key)

  -- The customer that the identity has, or else its e-mail address.
  abbrev for_customer : Text → Text → SessionParams → SessionParams
  for_customer customer email params =
      if not (is_empty customer)
      then record params { customer = some customer }
      else if not (is_empty (trim_space email))
      then record params { customer_email = some email }
      else params

  -- A trial of so many days from now.
  abbrev with_trial : Time → SessionParams → SessionParams
  with_trial now params =
      if ltb 0 p.trial_days
      then record params { trial_end = some (unix_seconds (now + p.trial_days * 86400000000000)) }
      else params

  -- `CreateSubscription`
  unfoldable pub create_stripe_subscription : Text → Text → Text → Text → Text → Text → Exec Text
  unfolding sold_as product_at stripe_checkout_metadata unix_seconds
  create_stripe_subscription identity_id email price_id success_url cancel_url idempotency_key = do
    q ← sold_as (bytes "subscription") (product_at p.products price_id)
    customer ← customer_id stripe identity_id
    now ← time_now
    p.create_session (
        with_trial now (
          for_customer customer email (
            session_params CheckoutMode.subscription price_id success_url cancel_url
              (stripe_checkout_metadata identity_id price_id q.plan_code) idempotency_key)))

  -- `CancelSubscription`
  unfoldable pub cancel_stripe_subscription : Text → Bool → Exec (Unit {0})
  cancel_stripe_subscription subscription_id at_period_end =
      if at_period_end
      then p.update_subscription subscription_id
      else p.cancel_subscription subscription_id

  -- `CreatePortal`
  unfoldable pub create_stripe_portal : Text → Text → Exec Text
  create_stripe_portal customer return_url = p.create_portal_session customer return_url
