-- ===== src/Config.antt =====
-- payment-system/services/config.go: the settings and the products, from the environment.
pub mod Catalog
pub mod Names
pub mod Durations
pub mod Loaded
use procyon_modules.Base.{
  ℕ, ◌*◌, Bool, true, false, ◌&&◌, ◌||◌, not, Option, none, some, List, [], ◌∷◌, ◌++◌, eqb, leb,
  if◌then◌else◌, length,
}
use procyon_modules.Base.Int.{ℤ, pos, pos_part, is_positive, int64}
use procyon_modules.Base.Text.{Text, bytes, ◌==◌, is_empty, trim_space, to_upper, normalized}
use procyon_modules.Base.Text.Numbers.{atoi, cut}
use procyon_modules.Models.Errors.{Sentinel, Error, message, sentinel}
use procyon_modules.Exec.{Result, ok, err}
use procyon_modules.Exec.Results.{◌>>=◌, ◌>>◌, require, wrap}
use procyon_modules.Store.Table.{find}
use procyon_modules.Store.Keyed.{is_key}

pub record Product : Type 0 where
  pub provider : Text
  pub product_id : Text
  pub plan_code : Text
  pub kind : Text
  pub currency : Text
  pub amount_minor : ℤ
  pub interval : Text
  pub enabled : Option Bool

-- The map of the products by provider and product id is the list of its values, each of which has
-- its key in its own fields. Durations are in nanoseconds.
pub record RuntimeConfig : Type 0 where
  pub enabled_providers : List Text
  pub products : List Product
  pub webhook_lease : ℤ
  pub webhook_retention : ℤ
  pub reconcile_every : ℤ
  pub encryption_key : Text

-- `RuntimeConfig{Products: …}` with the products of one provider.
abbrev pub config_with : List Product → RuntimeConfig
config_with products = record {
  enabled_providers = [];
  products = products;
  webhook_lease = pos 0;
  webhook_retention = pos 0;
  reconcile_every = pos 0;
  encryption_key = [];
}

-- What is outside of the program: the environment's variables and its files, and the library's
-- decoders, json.Unmarshal, base64 and time.ParseDuration.
pub record Platform : Type 0 where
  pub getenv : Text → Text
  pub read_file : Text → Result Text
  pub unmarshal : Text → Result (List Product)
  pub decode_base64 : Text → Option Text
  pub parse_duration : Text → Option ℤ

-- `containsProvider`, and membership in a set of texts.
unfoldable pub contains_provider : List Text → Text → Bool
contains_provider [] expected = false
contains_provider (v ∷ vs) expected = v == expected || contains_provider vs expected

-- The loop of `normalizedProviders`, whose `out` has the names that are seen.
unfoldable pub add_providers : List Text → List Text → List Text
unfolding contains_provider
add_providers out [] = out
add_providers out (v ∷ vs) =
    let name = normalized v in
    add_providers
      (if not (is_empty name) && not (contains_provider out name) then out ++ name ∷ [] else out) vs

-- `normalizedProviders`
unfoldable pub normalized_providers : List Text → List Text
normalized_providers = add_providers []

unfoldable pub is_positive_number : Option ℤ → Bool
is_positive_number none = false
is_positive_number (some n) = is_positive n

abbrev is_unit : Text → Bool
is_unit unit =
    unit == bytes "day" || (unit == bytes "week" || (unit == bytes "month" || unit == bytes "year"))

abbrev is_interval : Option (Text × Text) → Bool
is_interval none = false
is_interval (some (count, unit)) = is_positive_number (atoi count) && is_unit unit

-- `validProductInterval`
unfoldable pub valid_product_interval : Text → Bool
unfolding is_positive_number
valid_product_interval v = is_interval (cut b'-' v)

-- The fields as they are kept.
unfoldable pub normalized_product : Product → Product
normalized_product p = record p {
  provider = normalized p.provider;
  product_id = trim_space p.product_id;
  plan_code = trim_space p.plan_code;
  kind = normalized p.kind;
  currency = to_upper (trim_space p.currency);
  interval = normalized p.interval;
}

abbrev one_time : Text
one_time = bytes "one_time"

abbrev subscription : Text
subscription = bytes "subscription"

-- The entry passes the first test of the loop over the products.
unfoldable pub is_complete : Product → Bool
is_complete p =
    not (is_empty p.provider)
    && (not (is_empty p.product_id)
        && (not (is_empty p.plan_code)
            && (is_positive p.amount_minor
                && (eqb (length p.currency) 3 && (p.kind == one_time || p.kind == subscription)))))

-- The entry passes the second.
unfoldable pub has_interval : Product → Bool
unfolding valid_product_interval
has_interval p = not (
    (p.kind == subscription && not (valid_product_interval p.interval))
    || (p.kind == one_time && not (is_empty p.interval)))

abbrev pub is_disabled : Option Bool → Bool
is_disabled none = false
is_disabled (some b) = not b

abbrev pub provider_of : Product → Text
provider_of p = p.provider

abbrev pub product_id_of : Product → Text
product_id_of p = p.product_id

-- The key of a product in the map.
abbrev pub is_product : Text → Text → Product → Bool
is_product = is_key provider_of product_id_of

abbrev pub has : Option Product → Bool
has none = false
has (some p) = true

-- One round of the loop over the products.
unfoldable pub add_product : Product → List Product → Result (List Product)
unfolding is_complete has_interval find
add_product entry products =
    let p = normalized_product entry in
    if not (is_complete p)
    then err (message (bytes "invalid payment product entry for " ++ p.product_id))
    else if not (has_interval p)
    then err (message (bytes "invalid payment product interval for " ++ p.product_id))
    else if is_disabled p.enabled
    then ok products
    else if has (find (is_product p.provider p.product_id) products)
    then err (message (bytes "duplicate payment product " ++ p.provider ++ b'/' ∷ p.product_id))
    else ok (products ++ p ∷ [])

unfoldable pub add_products : List Product → List Product → Result (List Product)
unfolding add_product
add_products [] products = ok products
add_products (p ∷ ps) products = do added ← add_product p products; add_products ps added

-- What `time.ParseDuration` has answered.
abbrev pub of_duration : Text → Option ℤ → Result ℤ
of_duration raw none = err (message (bytes "invalid positive duration " ++ raw))
of_duration raw (some duration) =
    if is_positive duration
    then ok duration
    else err (message (bytes "invalid positive duration " ++ raw))

-- What `strconv.Atoi` has answered: a product of two 64-bit integers wraps.
abbrev pub of_seconds : Platform → Text → Option ℤ → Result ℤ
of_seconds platform raw none = of_duration raw (platform.parse_duration raw)
of_seconds platform raw (some seconds) =
    if is_positive seconds
    then ok (int64 (pos_part seconds * 1000000000))
    else err (message (bytes "must be positive"))

-- `parseDurationValue`: the new value of its target.
unfoldable pub parse_duration_value : Platform → ℤ → Text → Result ℤ
unfolding atoi
parse_duration_value platform target raw =
    if is_empty (trim_space raw) then ok target else of_seconds platform raw (atoi raw)

-- `value`
unfoldable pub value : Platform → (Text → Text) → Text → Text → Text
value platform values key environment =
    let raw = trim_space (values key) in
    if is_empty raw then trim_space (platform.getenv environment) else raw

unfoldable pub is_supported : Text → Bool
is_supported name = name == bytes "stripe" || (name == bytes "google" || name == bytes "apple")

-- The loop over the names of the providers.
unfoldable pub check_supported : List Text → Result (Unit {0})
unfolding is_supported
check_supported [] = ok tt
check_supported (name ∷ names) =
    require (is_supported name) (message (bytes "unsupported configured payment provider " ++ name))
    >> check_supported names

abbrev pub has_products : List Product → Text → Bool
has_products products name = has (find (λ p. p.provider == name) products)

-- The loop that wants a product for each provider.
unfoldable pub check_products : List Product → List Text → Result (Unit {0})
unfolding find
check_products products [] = ok tt
check_products products (name ∷ names) =
    require (has_products products name)
      (message (bytes "no enabled products configured for provider " ++ name))
    >> check_products products names

abbrev key_error : Error
key_error = message (
    bytes
      "PAYMENT_DATA_ENCRYPTION_KEY must be a base64-encoded 32-byte key when Google Play is enabled")

abbrev pub key_of : Option Text → Result Text
key_of none = err key_error
key_of (some key) = if eqb (length key) 32 then ok key else err key_error

-- The key that Google's purchases are encrypted with, where Google is enabled.
unfoldable pub load_key : Platform → List Text → Result Text
load_key platform names =
    if contains_provider names (bytes "google")
    then key_of (
        platform.decode_base64 (trim_space (platform.getenv (bytes "PAYMENT_DATA_ENCRYPTION_KEY"))))
    else ok []

-- `LoadRuntimeConfig`
unfoldable pub load_runtime_config : Platform → List Text → (Text → Text) → Result RuntimeConfig
unfolding normalized_providers
load_runtime_config platform enabled_providers values = do
  require (leb 1 (length (normalized_providers enabled_providers)))
      (message (bytes "payment-system requires at least one provider"))
  check_supported (normalized_providers enabled_providers)
  lease ← wrap (bytes "payment webhook lease") (
      parse_duration_value platform (pos 300000000000)
        (value platform values (bytes "webhook_lease") (bytes "PAYMENT_WEBHOOK_LEASE")))
  retention ← wrap (bytes "payment webhook retention") (
      parse_duration_value platform (pos 2592000000000000)
        (value platform values (bytes "webhook_retention") (bytes "PAYMENT_WEBHOOK_RETENTION")))
  every ← wrap (bytes "payment reconciliation interval") (
      parse_duration_value platform (pos 21600000000000)
        (value platform values (bytes "reconcile_every") (bytes "PAYMENT_RECONCILE_EVERY")))
  require
      (not (
        is_empty (
          trim_space
            (value platform values (bytes "products_file") (bytes "PAYMENT_PRODUCTS_FILE")))))
      (message (bytes "PAYMENT_PRODUCTS_FILE is required"))
  raw ← wrap (bytes "read payment products") (
      platform.read_file
        (value platform values (bytes "products_file") (bytes "PAYMENT_PRODUCTS_FILE")))
  entries ← wrap (bytes "parse payment products") (platform.unmarshal raw)
  products ← add_products entries []
  check_products products (normalized_providers enabled_providers)
  key ← load_key platform (normalized_providers enabled_providers)
  ok (record {
    enabled_providers = normalized_providers enabled_providers;
    products = products;
    webhook_lease = lease;
    webhook_retention = retention;
    reconcile_every = every;
    encryption_key = key;
  })

abbrev rejected : Result Product
rejected = err (sentinel Sentinel.product_rejected)

abbrev pub of_kind : Text → Option Product → Result Product
of_kind kind none = rejected
of_kind kind (some p) = if not (is_empty kind) && not (p.kind == kind) then rejected else ok p

-- `RuntimeConfig.Product`
unfoldable pub product : RuntimeConfig → Text → Text → Text → Result Product
product config provider product_id kind =
    of_kind kind (find (is_product (normalized provider) (trim_space product_id)) config.products)
