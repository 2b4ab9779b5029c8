-- ===== src/Tests/Config.antt =====
-- Configurations, from concrete environments.
use procyon_modules.Base.{
  ◌≡◌, refl, true, ◌&&◌, not, none, some, List, [], ◌∷◌, map, All, arith, if◌then◌else◌,
}
use procyon_modules.Base.Int.{pos, negsuc, int64}
use procyon_modules.Base.Text.{Text, bytes, ◌==◌, is_empty, to_upper, trim_space, normalized}
use procyon_modules.Base.Text.Numbers.{atoi, cut}
use procyon_modules.Exec.{ok}
use procyon_modules.Store.Table.{find}
use procyon_modules.Store.Keyed.{is_key}
use procyon_modules.Config.{
  Product, RuntimeConfig, Platform, contains_provider, add_providers, normalized_providers,
  parse_duration_value, load_runtime_config, product, is_complete, has_interval,
  valid_product_interval, value, check_supported, add_products, add_product, normalized_product,
  check_products, load_key,
}
use procyon_modules.Exec.Results.{◌>>=◌}
use procyon_modules.Config.Catalog.{IsEntry, IsCatalog, products_found}
use procyon_modules.Config.Names.{
  IsNames, normalized_providers-IsNames, contains-normalized_providers,
}
use procyon_modules.Config.Durations.{IsAccepted, parse_duration_value-IsAccepted}
use procyon_modules.Config.Loaded.{Loads, load_runtime_config-Loads}

abbrev pub gold : Product
gold = record {
  provider = bytes "stripe";
  product_id = bytes "price_1";
  plan_code = bytes "gold";
  kind = bytes "one_time";
  currency = bytes "EUR";
  amount_minor = pos 990;
  interval = [];
  enabled = none;
}

-- Only the variable of the products is set; every file is empty and has one product.
abbrev pub platform : Platform
platform = record {
  getenv = λ name. if name == bytes "PAYMENT_PRODUCTS_FILE" then bytes "products.json" else [];
  read_file = λ path. ok [];
  unmarshal = λ raw. ok (gold ∷ []);
  decode_base64 = λ text. none;
  parse_duration = λ text. none;
}

abbrev given : List Text
given = bytes "Stripe " ∷ bytes "" ∷ bytes "stripe" ∷ bytes "apple" ∷ []

names_test : normalized_providers given ≡ bytes "stripe" ∷ bytes "apple" ∷ []
unfolding normalized_providers add_providers normalized ◌==◌
names_test = refl

normalized_providers-IsNames_example : IsNames (normalized_providers given)
normalized_providers-IsNames_example = normalized_providers-IsNames given

contains-normalized_providers_example :
    contains_provider (normalized_providers given) (bytes "apple")
    ≡ (not (is_empty (bytes "apple")) && contains_provider (map normalized given) (bytes "apple"))
contains-normalized_providers_example = contains-normalized_providers given (bytes "apple")

load_runtime_config-Loads_example :
    Loads (load_runtime_config platform (bytes "stripe" ∷ []) (λ key. []))
load_runtime_config-Loads_example =
    load_runtime_config-Loads platform (bytes "stripe" ∷ []) (λ key. [])

abbrev pub config : RuntimeConfig
config = record {
  enabled_providers = bytes "stripe" ∷ [];
  products = gold ∷ [];
  webhook_lease = pos 300000000000;
  webhook_retention = pos 2592000000000000;
  reconcile_every = pos 21600000000000;
  encryption_key = [];
}

gold-IsEntry : IsEntry gold
unfolding is_complete ◌==◌ has_interval normalized
gold-IsEntry = record {
  complete = refl;
  interval = refl;
  enabled = refl;
  provider_normalized = refl;
  product_id_trimmed = refl;
}

config-IsCatalog : IsCatalog config.products
unfolding find
config-IsCatalog = record { entries = (gold-IsEntry, tt); index = (refl, tt) }

products_found_example :
    All (λ p. product config p.provider p.product_id p.kind ≡ ok p) config.products
products_found_example = products_found config config-IsCatalog

gold_sold : product config (bytes "STRIPE") (bytes " price_1") (bytes "one_time") ≡ ok gold
unfolding product find is_key ◌==◌ normalized
gold_sold = refl

two_minutes_small : atoi (bytes "120") ≡ some (pos 120)
unfolding atoi
two_minutes_small = refl

parse_duration_value-IsAccepted_example :
    IsAccepted (parse_duration_value platform (pos 300000000000) (bytes "120"))
unfolding atoi
parse_duration_value-IsAccepted_example =
    parse_duration_value-IsAccepted platform (pos 300000000000) (bytes "120") refl (omega arith)

-- One second more than a duration holds wraps to a negative one, and is accepted.
overflow_test :
    parse_duration_value platform (pos 300000000000) (bytes "9223372037")
    ≡ ok (negsuc 9223372036709551615)
unfolding parse_duration_value trim_space int64
overflow_test = refl

interval_test : valid_product_interval (bytes "3-month") ≡ true
unfolding valid_product_interval cut atoi ◌==◌
interval_test = refl

loads_test : load_runtime_config platform (bytes "stripe" ∷ []) (λ key. []) ≡ ok config
unfolding load_runtime_config normalized_providers add_providers normalized ◌==◌ check_supported
    parse_duration_value value trim_space add_products add_product normalized_product check_products
    load_key find is_key is_complete has_interval ◌>>=◌ to_upper
loads_test = refl
