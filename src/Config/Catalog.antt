-- ===== src/Config/Catalog.antt =====
-- The products that `LoadRuntimeConfig` keeps, and their lookup.
use procyon_modules.Base.{
  ◌≡◌, refl, sym, subst, ap, ◌∙◌, Bool, true, false, ◌&&◌, not, ◌⊎◌, inl, inr, Option, none, some,
  List, [], ◌∷◌, ◌++◌, arith, All, Bool-cases,
}
use procyon_modules.Base.Text.{Text, ◌==◌, is_empty, eq_iff, eq_refl, trim_space, normalized}
use procyon_modules.Base.Text.Laws.{trim_space_idem, normalized_idem}
use procyon_modules.Models.Errors.{Error}
use procyon_modules.Exec.{Result, ok, err}
use procyon_modules.Exec.Results.{at_then, at_choice}
use procyon_modules.Store.Table.{find}
use procyon_modules.Store.Table.Laws.{All-append_one, find-All}
use procyon_modules.Store.Keyed.{HasIndex}
use procyon_modules.Store.Keyed.Laws.{insert-HasIndex, found_key, find_each}
use procyon_modules.Config.{
  Product, RuntimeConfig, provider_of, product_id_of, is_product, is_complete, has_interval,
  is_disabled, normalized_product, has, of_kind, add_product, add_products, product,
}

-- An entry that passed the tests, with its key trimmed and the provider in lower case.
pub record IsEntry (p : Product) : Type 0 where
  pub complete : is_complete p ≡ true
  pub interval : has_interval p ≡ true
  pub enabled : is_disabled p.enabled ≡ false
  pub provider_normalized : normalized p.provider ≡ p.provider
  pub product_id_trimmed : trim_space p.product_id ≡ p.product_id

pub record IsCatalog (products : List Product) : Type 0 where
  pub entries : All IsEntry products
  pub index : HasIndex provider_of product_id_of products

unfoldable pub Keeps : Result (List Product) → Type 0
Keeps (ok products) = IsCatalog products
Keeps (err e) = Unit

Keeps-ok : (products : List Product) → IsCatalog products → Keeps (ok products)
unfolding Keeps
Keeps-ok products c = c

Keeps-err : (e : Error) → Keeps (err e)
unfolding Keeps
Keeps-err e = tt

pub ok_kept : (products : List Product) → Keeps (ok products) → IsCatalog products
unfolding Keeps
ok_kept products k = k

fresh : (o : Option Product) → has o ≡ false → o ≡ none
fresh none h = refl
fresh (some p) h = cc

-- An entry that passes every test joins the catalog.
joins :
    (p : Product) (products : List Product)
    → IsCatalog products
    → IsEntry p
    → find (is_product p.provider p.product_id) products ≡ none
    → IsCatalog (products ++ p ∷ [])
joins p products c v n = record {
  entries = All-append_one IsEntry products p c.entries v;
  index = insert-HasIndex provider_of product_id_of products p n c.index;
}

normalized-IsEntry :
    (p : Product)
    → is_complete (normalized_product p) ≡ true
    → has_interval (normalized_product p) ≡ true
    → is_disabled p.enabled ≡ false
    → IsEntry (normalized_product p)
unfolding normalized_product
normalized-IsEntry p complete interval enabled = record {
  complete = complete;
  interval = interval;
  enabled = enabled;
  provider_normalized = normalized_idem p.provider;
  product_id_trimmed = trim_space_idem p.product_id;
}

passed : (b : Bool) → not b ≡ false → b ≡ true
passed b h = ground arith

add_product-Keeps :
    (entry : Product) (products : List Product)
    → IsCatalog products
    → Keeps (add_product entry products)
unfolding add_product normalized_product
add_product-Keeps entry products c =
    at_choice Keeps _ _ _ (λ h. Keeps-err _)
      λ complete.
        at_choice Keeps _ _ _ (λ h. Keeps-err _)
          λ interval.
            at_choice Keeps _ _ _ (λ h. Keeps-ok products c)
              λ enabled.
                at_choice Keeps _ _ _ (λ h. Keeps-err _)
                  λ h. Keeps-ok _ (
                    joins (normalized_product entry) products c
                      (normalized-IsEntry entry (passed _ complete) (passed _ interval) enabled)
                      (fresh _ h))

pub add_products-Keeps :
    (entries products : List Product) → IsCatalog products → Keeps (add_products entries products)
unfolding add_products
add_products-Keeps [] products c = Keeps-ok products c
add_products-Keeps (p ∷ ps) products c =
    at_then Keeps (add_product p products) (add_products ps) Keeps-err
      λ added h. add_products-Keeps ps added (kept _ added (add_product-Keeps p products c) h)
  where
    kept : (r : Result (List Product)) (qs : List Product) → Keeps r → r ≡ ok qs → IsCatalog qs
    kept r qs k h = ok_kept qs (subst Keeps h k)

-- Every product of a catalog is found under its own key and kind.
pub products_found :
    (config : RuntimeConfig)
    → IsCatalog config.products
    → All (λ p. product config p.provider p.product_id p.kind ≡ ok p) config.products
unfolding product
products_found config c =
    go config.products c.entries (find_each provider_of product_id_of config.products c.index)
  where
    go :
        (ps : List Product)
        → All IsEntry ps
        → All (λ p. find (is_product p.provider p.product_id) config.products ≡ some p) ps
        → All (λ p. product config p.provider p.product_id p.kind ≡ ok p) ps
    go [] v f = tt
    go (p ∷ ps) v f = (
      rw (v.0.provider_normalized, v.0.product_id_trimmed, f.0) (ground (arith, eq_refl p.kind)),
      go ps v.1 f.1,
    )

of_kind-some :
    (kind : Text) (q p : Product)
    → of_kind kind (some q) ≡ ok p
    → (q ≡ p) × ((is_empty kind ≡ true) ⊎ (p.kind ≡ kind))
of_kind-some kind q p h = elim (Bool-cases (not (is_empty kind) && not (q.kind == kind))) [
  | inl b ↦ absurd (ground (arith, b))
  | inr b ↦
      let q_eq : q ≡ p = ground (arith, b) in
      (
        q_eq,
        elim (Bool-cases (is_empty kind)) [
          | inl n ↦ inl n
          | inr n ↦
              inr (ap (λ r. r.kind) (sym q_eq) ∙ (eq_iff q.kind kind).0 (ground (arith, b, n)))
        ],
      )
]

-- What a lookup finds is an entry of the provider and the product id that were asked for, in their
-- normalized forms, and of the kind, if one was asked for.
pub found-IsEntry :
    (config : RuntimeConfig) (provider product_id kind : Text) (p : Product)
    → IsCatalog config.products
    → product config provider product_id kind ≡ ok p
    → IsEntry p
      × (p.provider ≡ normalized provider)
      × (p.product_id ≡ trim_space product_id)
      × ((is_empty kind ≡ true) ⊎ (p.kind ≡ kind))
unfolding product
found-IsEntry config provider product_id kind p c h =
    go (find (is_product (normalized provider) (trim_space product_id)) config.products) refl h
  where
    go :
        (o : Option Product)
        → find (is_product (normalized provider) (trim_space product_id)) config.products ≡ o
        → of_kind kind o ≡ ok p
        → IsEntry p
          × (p.provider ≡ normalized provider)
          × (p.product_id ≡ trim_space product_id)
          × ((is_empty kind ≡ true) ⊎ (p.kind ≡ kind))
    go none e g = cc
    go (some q) e g =
        let (q_eq, kind_eq) = of_kind-some kind q p g in
        let key = found_key provider_of product_id_of _ _ config.products e in
        (
          subst IsEntry q_eq (find-All IsEntry _ config.products c.entries e),
          ap provider_of (sym q_eq) ∙ key.0,
          ap product_id_of (sym q_eq) ∙ key.1,
          kind_eq,
        )
