-- ===== src/Providers/Factories.antt =====
-- The factories of the three providers, from the configuration and the environment. The clients that
-- they connect to are parameters.
use procyon_modules.Base.{
  ℕ, Bool, true, false, ◌&&◌, ◌||◌, not, Option, none, some, List, [], ◌∷◌, ◌++◌, eqb, leb, select,
  if◌then◌else◌,
}
use procyon_modules.Base.Int.{ℤ, pos, negsuc, is_positive}
use procyon_modules.Base.Text.{Text, bytes, ◌==◌, is_empty, trim_space}
use procyon_modules.Base.Text.Numbers.{atoi}
use procyon_modules.Models.Errors.{message}
use procyon_modules.Exec.{Result, ok, err, Exec}
use procyon_modules.Exec.Results.{◌>>=◌, ◌>>◌, require, wrap}
use procyon_modules.Config.{Platform, RuntimeConfig, Product, contains_provider}
use procyon_modules.Providers.Google.{GooglePaymentProvider, google}
use procyon_modules.Providers.Stripe.{StripePaymentProvider, PurchaseMessage, stripe}
use procyon_modules.Providers.Apple.{AppleConfig, AppleLibrary, ApplePaymentProvider, EcKey, apple}

-- `config.Products[name]`
unfoldable pub products_of : RuntimeConfig → Text → List Product
products_of config name = select (λ q. q.provider == name) config.products

-- What `strconv.Atoi` has answered, as a number of days.
abbrev days_of : Option ℤ → Result ℕ
days_of (some (pos n)) =
    if leb n 365 then ok n else err (message (bytes "STRIPE_TRIAL_DAYS must be between 0 and 365"))
days_of (some (negsuc n)) = err (message (bytes "STRIPE_TRIAL_DAYS must be between 0 and 365"))
days_of none = err (message (bytes "STRIPE_TRIAL_DAYS must be between 0 and 365"))

-- The setting STRIPE_TRIAL_DAYS.
unfoldable pub trial_days_of : Text → Result ℕ
unfolding atoi
trial_days_of raw = if is_empty raw then ok 0 else days_of (atoi raw)

-- `newStripePaymentProvider`, where `connect` makes the client for a secret key.
unfoldable pub new_stripe_payment_provider :
    Platform
    → (Text → StripePaymentProvider)
    → Option (Text → PurchaseMessage → Exec (Unit {0}))
    → RuntimeConfig
    → Result (Option StripePaymentProvider)
unfolding contains_provider trial_days_of products_of
new_stripe_payment_provider platform connect event_bus config =
    if not (contains_provider config.enabled_providers stripe)
    then ok none
    else (require (not (is_empty (trim_space (platform.getenv (bytes "STRIPE_SECRET_KEY")))))
          (message (bytes "STRIPE_SECRET_KEY is required when Stripe is enabled"))
        >> require (not (is_empty (trim_space (platform.getenv (bytes "STRIPE_WEBHOOK_SECRET")))))
            (message (bytes "STRIPE_WEBHOOK_SECRET is required when Stripe is enabled"))
        >> trial_days_of (trim_space (platform.getenv (bytes "STRIPE_TRIAL_DAYS")))
        >>= λ trial_days. ok (
            some (record (connect (trim_space (platform.getenv (bytes "STRIPE_SECRET_KEY")))) {
              webhook_secret = trim_space (platform.getenv (bytes "STRIPE_WEBHOOK_SECRET"));
              trial_days = trial_days;
              products = products_of config stripe;
              webhook_lease = config.webhook_lease;
              event_bus = event_bus;
              resolve_checkout_price = none;
            })))

-- `newGooglePaymentProvider`, where `connect` makes the client for a file of credentials, and the
-- ciphers for the encryption key.
unfoldable pub new_google_payment_provider :
    Platform
    → (Text → Text → Result GooglePaymentProvider)
    → RuntimeConfig
    → Result (Option GooglePaymentProvider)
unfolding contains_provider
new_google_payment_provider platform connect config =
    if not (contains_provider config.enabled_providers google)
    then ok none
    else (let credentials_file =
          trim_space (platform.getenv (bytes "GOOGLE_PLAY_SERVICE_ACCOUNT_FILE")) in
        let package_name = trim_space (platform.getenv (bytes "GOOGLE_PLAY_PACKAGE_NAME")) in
        let audience = trim_space (platform.getenv (bytes "GOOGLE_PLAY_PUBSUB_AUDIENCE")) in
        require
          (not (is_empty credentials_file)
            && (not (is_empty package_name) && not (is_empty audience)))
          (message (
            bytes "GOOGLE_PLAY_SERVICE_ACCOUNT_FILE, GOOGLE_PLAY_PACKAGE_NAME and "
            ++ bytes "GOOGLE_PLAY_PUBSUB_AUDIENCE are required"))
        >> connect credentials_file config.encryption_key
        >>= λ client. ok (
            some (record client {
              package_name = package_name;
              pubsub_audience = audience;
              config = config;
              webhook_lease = config.webhook_lease;
            })))

abbrev of_256_bits : Result EcKey → Result EcKey
of_256_bits (err e) = err (message (bytes "Apple private key must be an ES256 key"))
of_256_bits (ok key) =
    if eqb key.bit_size 256
    then ok key
    else err (message (bytes "Apple private key must be an ES256 key"))

abbrev starts_with_slash : Text → Bool
starts_with_slash [] = false
starts_with_slash (c ∷ s) = eqb c b'/'

module _ (library : AppleLibrary) where
  -- A key in the one format, or else in the other.
  abbrev key_of : Text → Result (Option EcKey) → Result EcKey
  key_of block (ok (some key)) =
      if eqb key.bit_size 256 then ok key else of_256_bits (library.parse_ec_private_key block)
  key_of block (ok none) = of_256_bits (library.parse_ec_private_key block)
  key_of block (err e) = of_256_bits (library.parse_ec_private_key block)

  abbrev key_of_block : Option Text → Result EcKey
  key_of_block none = err (message (bytes "invalid Apple private key PEM"))
  key_of_block (some block) = key_of block (library.parse_pkcs8_private_key block)

  -- `parseApplePrivateKey`
  unfoldable pub parse_apple_private_key : Text → Result EcKey
  parse_apple_private_key raw = key_of_block (library.pem_decode raw)

  abbrev has : Option Text → Bool
  has none = false
  has (some block) = true

  -- `bytesContainsPEM`
  unfoldable pub bytes_contains_pem : Text → Bool
  bytes_contains_pem raw = has (library.pem_decode raw)

  -- A path that is not absolute stands beside the configuration.
  abbrev resolve : Text → Text → Text
  resolve config_path path =
      if starts_with_slash path then path else library.beside config_path path

  -- The roots: in the configuration itself, or in a file that it names.
  unfoldable pub root_pem : Platform → Text → Text → Result Text
  unfolding bytes_contains_pem
  root_pem platform config_path root_ca =
      if bytes_contains_pem root_ca
      then ok root_ca
      else if is_empty (trim_space root_ca)
      then err (message (bytes "Apple payment root_ca is required"))
      else platform.read_file (resolve config_path (trim_space root_ca))

  -- The configuration with its texts trimmed.
  abbrev trimmed : AppleConfig → AppleConfig
  trimmed config = record config {
    bundle_id = trim_space config.bundle_id;
    environment = trim_space config.environment;
    issuer_id = trim_space config.issuer_id;
    key_id = trim_space config.key_id;
    private_key = trim_space config.private_key;
  }

  -- The three tests of the configuration.
  unfoldable pub check_apple_config : AppleConfig → Result (Unit {0})
  check_apple_config config =
      require
        (not (is_empty config.bundle_id)
          && (config.environment == bytes "Sandbox" || config.environment == bytes "Production"))
        (message (bytes "Apple bundle_id and environment (Sandbox or Production) are required"))
      >> require
          (not (config.environment == bytes "Production" && not (is_positive config.app_apple_id)))
          (message (bytes "Apple app_apple_id is required in Production"))
      >> require
          (not (is_empty config.issuer_id)
            && (not (is_empty config.key_id) && not (is_empty config.private_key)))
          (message
            (bytes "Apple issuer_id, key_id and private_key are required for reconciliation"))

  abbrev online_of : Text → Option Bool → Bool
  online_of environment none = environment == bytes "Production"
  online_of environment (some online_checks) = online_checks

  abbrev assembled : RuntimeConfig → AppleConfig → EcKey → Text → ApplePaymentProvider
  assembled runtime config key roots = record {
    library = library;
    bundle_id = config.bundle_id;
    app_apple_id = config.app_apple_id;
    environment = config.environment;
    roots = roots;
    products = products_of runtime apple;
    webhook_lease = runtime.webhook_lease;
    online_checks = online_of config.environment config.online_checks;
    issuer_id = config.issuer_id;
    key_id = config.key_id;
    private_key = some key;
    server_api_url =
        if config.environment == bytes "Sandbox"
        then bytes "https://api.storekit-sandbox.apple.com"
        else bytes "https://api.storekit.apple.com";
  }

  -- What follows the reading of the configuration file.
  unfoldable pub apple_provider_of :
      Platform → RuntimeConfig → Text → AppleConfig → Result ApplePaymentProvider
  unfolding check_apple_config root_pem parse_apple_private_key products_of
  apple_provider_of platform runtime config_path config = do
    check_apple_config config
    pem ←
        wrap (bytes "read Apple private key")
          (platform.read_file (resolve config_path config.private_key))
    key ← parse_apple_private_key pem
    roots ← root_pem platform config_path config.root_ca
    require (library.append_certs_from_pem roots) (message (bytes "invalid Apple root CA"))
    ok (assembled runtime config key roots)

  -- `newApplePaymentProvider`
  unfoldable pub new_apple_payment_provider :
      Platform → RuntimeConfig → Result (Option ApplePaymentProvider)
  unfolding contains_provider apple_provider_of
  new_apple_payment_provider platform runtime =
      if not (contains_provider runtime.enabled_providers apple)
      then ok none
      else (let path = trim_space (platform.getenv (bytes "APPLE_APP_STORE_CONFIG_FILE")) in
          require (not (is_empty path))
            (message (bytes "APPLE_APP_STORE_CONFIG_FILE is required when Apple is enabled"))
          >> platform.read_file path
          >>= λ raw.
              wrap (bytes "parse Apple payment config") (library.unmarshal_config raw) >>= λ config.
              apple_provider_of platform runtime path (trimmed config) >>= λ p. ok (some p))
