-- ===== src/Service.antt =====
-- payment-system/services/service.go: the providers and their capabilities, the construction of the
-- service, and what its calls share: the return URLs, the lookup of a provider, the metrics.
pub mod Rules
pub mod Checkout
pub mod Reconcile
pub mod Queries
pub mod Statuses
use procyon_modules.Base.{
  ℕ, ◌+◌, ◌-◌, ◌%◌, ◌^◌, Bool, true, false, ◌&&◌, not, Option, none, some, List, [], ◌∷◌, ◌++◌,
  if◌then◌else◌, map,
}
use procyon_modules.Base.Text.{Text, bytes, ◌==◌, is_empty, to_lower, trim_space, normalized}
use procyon_modules.Base.Text.Numbers.{split, trim_end}
use procyon_modules.Models.{Time, PaymentSubscription}
use procyon_modules.Models.Errors.{Sentinel, Error, sentinel, message}
use procyon_modules.Models.Inputs.{PaymentPriceOption, PaymentStoreVerificationInput}
use procyon_modules.Exec.{Result, ok, err, ProviderMetrics, World, Exec, pure, raise, from, ◌>>=◌}
use procyon_modules.Config.{Platform, RuntimeConfig, contains_provider}

-- `paymentSubscriptionProvider`
pub record SubscriptionCapability : Type 0 where
  pub create_subscription : Text → Text → Text → Text → Text → Text → Exec Text
  pub cancel_subscription : Text → Bool → Exec (Unit {0})

-- A provider: each interface that it implements is a capability that it has.
pub record Provider : Type 0 where
  pub name : Text
  pub prices : Option (Exec (List PaymentPriceOption))
  pub create_checkout : Option (Text → Text → Text → Text → Text → Exec Text)
  pub subscriptions : Option SubscriptionCapability
  pub create_portal : Option (Text → Text → Exec Text)
  pub handle_webhook : Option (Text → Text → Exec (Unit {0}))
  pub verify_store_purchase : Option (Text → PaymentStoreVerificationInput → Exec (Unit {0}))
  pub reconcile_subscription : Option (PaymentSubscription → Exec (Unit {0}))

-- The map of the providers is an association list. `url.Parse` is `parse_url`, as far as the service reads its result: the scheme and the host.
pub record PaymentSystemService : Type 0 where
  pub providers : List (Text × Provider)
  pub allowed_returns : List Text
  pub config : RuntimeConfig
  pub parse_url : Text → Option (Text × Text)

-- `providers[name]`
unfoldable pub lookup : Text → List (Text × Provider) → Option Provider
lookup name [] = none
lookup name ((n, p) ∷ ps) = let rest = lookup name ps in if n == name then some p else rest

-- `providers[name] = provider`
unfoldable pub put : Text → Provider → List (Text × Provider) → List (Text × Provider)
put name p [] = (name, p) ∷ []
put name p ((n, q) ∷ ps) =
    let rest = put name p ps in if n == name then (n, p) ∷ ps else (n, q) ∷ rest

-- A `paymentProviderFactory` of this configuration: its error, or its provider if it is enabled.
abbrev pub Factory : Type 0
Factory = Result (Option Provider)

-- One round of the loop over the factories, under the allowed names.
abbrev register : List Text → Option Provider → List (Text × Provider) → List (Text × Provider)
register allowed none ps = ps
register allowed (some p) ps =
    if contains_provider allowed (to_lower p.name) then put (to_lower p.name) p ps else ps

unfoldable pub register_all :
    List Text → List Factory → List (Text × Provider) → Result (List (Text × Provider))
unfolding contains_provider put
register_all allowed [] ps = ok ps
register_all allowed (err e ∷ fs) ps = err e
register_all allowed (ok made ∷ fs) ps = register_all allowed fs (register allowed made ps)

-- The first configured name that has no provider.
unfoldable pub missing : List (Text × Provider) → List Text → Option Text
unfolding lookup
missing ps [] = none
missing ps (name ∷ names) =
    let rest = missing ps names in elim (lookup name ps) [ some p ↦ rest | none ↦ some name ]

abbrev kept_origin : Text → List Text → List Text
kept_origin origin rest = if is_empty origin then rest else origin ∷ rest

unfoldable pub origins : List Text → List Text
unfolding trim_end
origins [] = []
origins (o ∷ os) = kept_origin (trim_end b'/' (to_lower (trim_space o))) (origins os)

-- `paymentAllowedReturnOrigins`
unfoldable pub payment_allowed_return_origins : Platform → List Text
unfolding origins split
payment_allowed_return_origins platform =
    let raw = trim_space (platform.getenv (bytes "PAYMENT_ALLOWED_RETURN_ORIGINS")) in
    origins (split b',' (if is_empty raw then bytes "http://localhost,http://127.0.0.1" else raw))

-- The last loop of `NewPaymentSystemService`, and its return.
abbrev pub complete :
    Platform
    → RuntimeConfig
    → (Text → Option (Text × Text))
    → List (Text × Provider)
    → Option Text
    → Result PaymentSystemService
complete platform config parse_url ps none = ok (record {
  providers = ps;
  allowed_returns = payment_allowed_return_origins platform;
  config = config;
  parse_url = parse_url;
})
complete platform config parse_url ps (some name) =
    err (message (bytes "configured payment provider " ++ name ++ bytes " is not usable"))

abbrev pub completed :
    Platform
    → RuntimeConfig
    → (Text → Option (Text × Text))
    → Result (List (Text × Provider))
    → Result PaymentSystemService
completed platform config parse_url (err e) = err e
completed platform config parse_url (ok ps) =
    complete platform config parse_url ps (missing ps config.enabled_providers)

-- `NewPaymentSystemService`
unfoldable pub new_payment_system_service :
    Platform
    → RuntimeConfig
    → (Text → Option (Text × Text))
    → List Factory
    → Result PaymentSystemService
unfolding register_all missing payment_allowed_return_origins
new_payment_system_service platform config parse_url factories =
    completed platform config parse_url
      (register_all (map normalized config.enabled_providers) factories [])

-- A value, or the error where there is none.
unfoldable pub or_fail : {A : Type 0} → Sentinel → Option A → Exec A
or_fail e none = raise (sentinel e)
or_fail e (some a) = pure a

-- `provider`
unfoldable pub provider : PaymentSystemService → Text → Exec Provider
unfolding lookup or_fail
provider s name = or_fail Sentinel.provider_unsupported (lookup (normalized name) s.providers)

-- `provider.(capability)`
unfoldable pub capability : {A : Type 0} → Option A → Exec A
unfolding or_fail
capability = or_fail Sentinel.capability_missing

abbrev is_error : {A : Type 0} → Result A → Bool
is_error (ok a) = false
is_error (err e) = true

-- `observe`: one more request; the counters are 64 bits wide.
unfoldable pub observe : Text → Time → Bool → World → World
observe name started failed w = record w {
  metrics = λ n.
      if n == normalized name
      then record (w.metrics n) {
        requests = ((w.metrics n).requests + 1) % 2 ^ 64;
        total_latency = (w.metrics n).total_latency + (w.clock - started);
        failures = ((w.metrics n).failures + (if failed then 1 else 0)) % 2 ^ 64;
      }
      else w.metrics n;
}

-- A call of a provider, between `started := time.Now()` and `s.observe(…)`.
unfoldable pub measured : {A : Type 0} → Text → Exec A → Exec A
unfolding observe
measured name call w = let (r, w') = call w in (r, observe name w.clock (is_error r) w')

abbrev is_allowed_origin : List Text → Option (Text × Text) → Bool
is_allowed_origin origins none = false
is_allowed_origin origins (some (scheme, host)) =
    (not (is_empty scheme) && not (is_empty host))
    && contains_provider origins (to_lower (scheme ++ bytes "://" ++ host))

-- One round of the loop of `validateReturnURLs`.
unfoldable pub is_allowed_return : PaymentSystemService → Text → Bool
unfolding contains_provider
is_allowed_return s url = is_allowed_origin s.allowed_returns (s.parse_url (trim_space url))

-- `validateReturnURLs`
unfoldable pub validate_return_urls : PaymentSystemService → List Text → Result (Unit {0})
unfolding is_allowed_return
validate_return_urls s [] = ok tt
validate_return_urls s (v ∷ vs) =
    let rest = validate_return_urls s vs in
    if is_allowed_return s v then rest else err (sentinel Sentinel.invalid_return_url)
