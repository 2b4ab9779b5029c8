-- ===== src/Config/Loaded.antt =====
-- The configuration that `LoadRuntimeConfig` returns.
use procyon_modules.Base.{
  ◌≤◌, ◌≡◌, subst, true, false, ◌⊎◌, inl, inr, Option, none, some, List, [], ◌∷◌, arith, All,
  Bool-cases, length, leb,
}
use procyon_modules.Base.Text.{Text, bytes, trim_space}
use procyon_modules.Models.Errors.{Error}
use procyon_modules.Exec.{Result, ok, err}
use procyon_modules.Exec.Results.{at_then, at_require, at_choice, ◌>>=◌}
use procyon_modules.Config.{
  Platform, Product, RuntimeConfig, contains_provider, normalized_providers, is_supported,
  check_supported, has_products, check_products, key_of, load_key, add_products,
  load_runtime_config,
}
use procyon_modules.Config.Names.{IsNames, normalized_providers-IsNames}
use procyon_modules.Config.Catalog.{IsCatalog, Keeps, add_products-Keeps, ok_kept}

-- The names are distinct, normalized and supported, at least one, and each has a product; the
-- products are valid under distinct keys; and Google's key, where it is needed, has 32 bytes.
pub record IsConfig (c : RuntimeConfig) : Type 0 where
  pub names : IsNames c.enabled_providers
  pub some_name : 1 ≤ length c.enabled_providers
  pub supported : All (λ n. is_supported n ≡ true) c.enabled_providers
  pub sold : All (λ n. has_products c.products n ≡ true) c.enabled_providers
  pub catalog : IsCatalog c.products
  pub key_size :
      (contains_provider c.enabled_providers (bytes "google") ≡ false)
      ⊎ (length c.encryption_key ≡ 32)

unfoldable pub Loads : Result RuntimeConfig → Type 0
Loads (ok c) = IsConfig c
Loads (err e) = Unit

Loads-ok : (c : RuntimeConfig) → IsConfig c → Loads (ok c)
unfolding Loads
Loads-ok c h = h

Loads-err : (e : Error) → Loads (err e)
unfolding Loads
Loads-err e = tt

supported_names :
    (names : List Text) → check_supported names ≡ ok tt → All (λ n. is_supported n ≡ true) names
unfolding check_supported ◌>>=◌
supported_names [] h = tt
supported_names (n ∷ ns) h = elim (Bool-cases (is_supported n)) [
  | inl b ↦ (b, supported_names ns (ground (arith, h, b)))
  | inr b ↦ absurd (ground (arith, h, b))
]

sold_names :
    (products : List Product) (names : List Text)
    → check_products products names ≡ ok tt
    → All (λ n. has_products products n ≡ true) names
unfolding check_products ◌>>=◌
sold_names products [] h = tt
sold_names products (n ∷ ns) h = elim (Bool-cases (has_products products n)) [
  | inl b ↦ (b, sold_names products ns (ground (arith, h, b)))
  | inr b ↦ absurd (ground (arith, h, b))
]

key_size_of :
    (platform : Platform) (names : List Text) (key : Text)
    → load_key platform names ≡ ok key
    → (contains_provider names (bytes "google") ≡ false) ⊎ (length key ≡ 32)
unfolding load_key
key_size_of platform names key h =
    at_choice
      (λ r. r ≡ ok key → (contains_provider names (bytes "google") ≡ false) ⊎ (length key ≡ 32))
      (contains_provider names (bytes "google")) _ _
      (λ b e. inr (
        decoded
          (platform.decode_base64
            (trim_space (platform.getenv (bytes "PAYMENT_DATA_ENCRYPTION_KEY"))))
          key e))
      (λ b e. inl b) h
  where
    decoded : (o : Option Text) (k : Text) → key_of o ≡ ok k → length k ≡ 32
    decoded none k e = cc
    decoded (some t) k e = ground (arith, e)

loaded-IsCatalog :
    (entries products : List Product) → add_products entries [] ≡ ok products → IsCatalog products
loaded-IsCatalog entries products h =
    ok_kept products
      (subst Keeps h (add_products-Keeps entries [] (record { entries = tt; index = tt })))

-- Whatever the environment and the decoders answer, a configuration that loads satisfies
-- `IsConfig`: its names are distinct, normalized and supported, at least one, and each has a
-- product; its products are valid and enabled, under distinct keys; and Google's key has 32 bytes
-- where Google is enabled.
pub load_runtime_config-Loads :
    (platform : Platform) (providers : List Text) (values : Text → Text)
    → Loads (load_runtime_config platform providers values)
unfolding load_runtime_config
load_runtime_config-Loads platform providers values =
    let names : List Text = normalized_providers providers in
    at_require Loads (leb 1 (length names)) _ _ Loads-err λ some_name.
      at_then Loads (check_supported names) _ Loads-err λ u supported.
        at_then Loads _ _ Loads-err λ lease l. at_then Loads _ _ Loads-err λ retention r.
          at_then Loads _ _ Loads-err λ every e. at_require Loads _ _ _ Loads-err λ path.
            at_then Loads _ _ Loads-err λ raw f. at_then Loads _ _ Loads-err λ entries d.
              at_then Loads (add_products entries []) _ Loads-err λ products p.
                at_then Loads (check_products products names) _ Loads-err λ v sold.
                  at_then Loads (load_key platform names) _ Loads-err λ key k. Loads-ok _ (record {
                    names = normalized_providers-IsNames providers;
                    some_name = ground (arith, some_name);
                    supported = supported_names names supported;
                    sold = sold_names products names sold;
                    catalog = loaded-IsCatalog entries products p;
                    key_size = key_size_of platform names key k;
                  })
