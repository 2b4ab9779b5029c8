-- ===== src/Providers/Stripe/Offers.antt =====
-- The price list of provider_stripe.go offers what the catalog has.
use procyon_modules.Base.{
  ◌≡◌, refl, Bool, true, false, ◌||◌, not, Option, none, some, List, [], ◌∷◌, ◌++◌, All, arith,
  if◌then◌else◌,
}
use procyon_modules.Base.Int.{is_positive, same_int}
use procyon_modules.Base.Text.{◌==◌, is_empty, to_lower}
use procyon_modules.Models.Inputs.{PaymentPriceOption}
use procyon_modules.Exec.{Result, ok, err, World}
use procyon_modules.Exec.Results.{at_choice}
use procyon_modules.Config.{Product}
use procyon_modules.Providers.Calls.{product_at}
use procyon_modules.Providers.Stripe.{StripePrice, StripePaymentProvider}
use procyon_modules.Providers.Stripe.Sales.{
  PriceCache, stripe_prices, offers, offer, currency_differs, amount_differs, kind_differs,
  price_option, is_fresh, keep_prices, all_offers,
}

-- A product of the catalog with this id, which has the currency, the amount and the interval of the
-- option wherever it has one itself.
pub record IsOffered (products : List Product) (option : PaymentPriceOption) : Type 0 where
  pub product : Product
  pub listed : product_at products option.id ≡ some product
  pub currency :
      (is_empty product.currency || to_lower product.currency == to_lower option.currency) ≡ true
  pub amount :
      (not (is_positive product.amount_minor) || same_int product.amount_minor option.amount_minor)
      ≡ true
  pub interval : (is_empty product.interval || product.interval == option.interval) ≡ true

module _ (products : List Product) where
  abbrev AllOffered : List PaymentPriceOption → Type 0
  AllOffered prices = All (IsOffered products) prices

  -- An error, or options that are all offered.
  abbrev Offers : Result (List PaymentPriceOption) → Type 0
  Offers (err e) = Unit
  Offers (ok prices) = AllOffered prices

  appended :
      (prices : List PaymentPriceOption) (option : PaymentPriceOption)
      → AllOffered prices
      → IsOffered products option
      → AllOffered (prices ++ option ∷ [])
  appended [] option h o = (o, tt)
  appended (q ∷ prices) option h o = (h.0, appended prices option h.1 o)

  option-IsOffered :
      (q : Product) (price : StripePrice)
      → product_at products price.id ≡ some q
      → currency_differs q price ≡ false
      → amount_differs q price ≡ false
      → kind_differs q price ≡ false
      → IsOffered products (price_option q price)
  unfolding currency_differs amount_differs kind_differs price_option
  option-IsOffered q price listed c a k = record {
    product = q;
    listed = listed;
    currency = ground (arith, c);
    amount = ground (arith, a);
    interval = ground (arith, k);
  }

  offer-Offers :
      (price : StripePrice) (o : Option Product) (prices : List PaymentPriceOption)
      → product_at products price.id ≡ o
      → AllOffered prices
      → Offers (offer price o prices)
  unfolding offer
  offer-Offers price none prices e h = h
  offer-Offers price (some q) prices e h =
      at_choice Offers (currency_differs q price) _ _ (λ c. tt)
        λ c.
          at_choice Offers (amount_differs q price) _ _ (λ a. tt)
            λ a.
              at_choice Offers (kind_differs q price) _ _ (λ k. tt)
                λ k. appended prices (price_option q price) h (option-IsOffered q price e c a k)

  offers-Offers :
      (listed : List (Result StripePrice)) (prices : List PaymentPriceOption)
      → AllOffered prices
      → Offers (offers products listed prices)
  unfolding offers
  offers-Offers [] prices h = h
  offers-Offers (err e ∷ listed) prices h = tt
  offers-Offers (ok price ∷ listed) prices h =
      go (offer price (product_at products price.id) prices)
        (offer-Offers price (product_at products price.id) prices refl h) (offers-Offers listed)
    where
      go :
          (r : Result (List PaymentPriceOption))
          → Offers r
          → ((more : List PaymentPriceOption)
              → AllOffered more
              → Offers (offers products listed more))
          → Offers (elim r [ ok more ↦ offers products listed more | err e ↦ err e ])
      go (ok more) o rest = rest more o
      go (err e) o rest = tt

-- What `Prices` answers, and the cache that it leaves.
abbrev pub Lists :
    List Product → PriceCache → (Result (List PaymentPriceOption) × PriceCache) × World → Type 0
Lists products cache ((err e, left), w) = left ≡ cache
Lists products cache ((ok prices, left), w) =
    All (IsOffered products) prices × All (IsOffered products) left.prices

module _ (p : StripePaymentProvider) (cache : PriceCache) where
  kept :
      (listed : Result (List (Result StripePrice))) (w : World)
      → Lists p.products cache (keep_prices cache (all_offers p.products listed) w)
  kept (err e) w = refl
  kept (ok listed) w = go (offers p.products listed []) (offers-Offers p.products listed [] tt)
    where
      go :
          (r : Result (List PaymentPriceOption))
          → Offers p.products r
          → Lists p.products cache (keep_prices cache r w)
      go (err e) o = refl
      go (ok prices) o = (o, o)

  -- Where the cached prices are all offered by the catalog, so are those that `Prices` answers with,
  -- from the cache or from Stripe, and those that it leaves in the cache: each has a product with
  -- its id and, where the product sets them, its currency, amount and interval. Where it fails, it
  -- leaves the cache.
  pub stripe_prices-Lists :
      (w : World)
      → All (IsOffered p.products) cache.prices
      → Lists p.products cache (stripe_prices p cache w)
  unfolding stripe_prices
  stripe_prices-Lists w h = go (is_fresh w.clock cache)
    where
      go :
          (fresh : Bool)
          → Lists p.products cache (
              if fresh
              then ((ok cache.prices, cache), w)
              else keep_prices cache
                  (all_offers p.products (p.list_prices w).0)
                  (p.list_prices w).1)
      go true = (h, h)
      go false = kept (p.list_prices w).0 (p.list_prices w).1
