-- ===== src/Service/Rules.antt =====
-- The rules for the guards of the service's calls.
use procyon_modules.Base.{
  ◌≡◌, refl, Bool, true, false, Option, none, some, List, [], ◌∷◌, All, arith, Bool-cases, inl, inr,
}
use procyon_modules.Base.Text.{Text}
use procyon_modules.Models.Errors.{Sentinel, Error, sentinel}
use procyon_modules.Exec.{Result, ok, err, World, Exec, from, ◌>>=◌}
use procyon_modules.Exec.Results.{require}
use procyon_modules.Config.{RuntimeConfig, Product, product, of_kind}
use procyon_modules.Service.{PaymentSystemService, or_fail, validate_return_urls, is_allowed_return}

module _ {A B : Type 0} (P : Result B × World → Type 0) where
  pub at_bind_from :
      (r : Result A) (f : A → Exec B) (w : World)
      → ((e : Error) → r ≡ err e → P (err e, w))
      → ((a : A) → r ≡ ok a → P (f a w))
      → P ((from r >>= f) w)
  unfolding ◌>>=◌
  at_bind_from (ok a) f w failed done = done a refl
  at_bind_from (err e) f w failed done = failed e refl

  pub at_bind_or_fail :
      (x : Sentinel) (o : Option A) (f : A → Exec B) (w : World)
      → P (err (sentinel x), w)
      → ((a : A) → o ≡ some a → P (f a w))
      → P ((or_fail x o >>= f) w)
  unfolding ◌>>=◌ or_fail
  at_bind_or_fail x none f w failed done = failed
  at_bind_or_fail x (some a) f w failed done = done a refl

module _ {B : Type 0} (P : Result B × World → Type 0) where
  pub at_bind_require :
      (b : Bool) (e : Error) (f : Unit {0} → Exec B) (w : World)
      → P (err e, w)
      → (b ≡ true → P (f tt w))
      → P ((from (require b e) >>= f) w)
  unfolding ◌>>=◌
  at_bind_require true e f w failed done = done refl
  at_bind_require false e f w failed done = failed

-- The lookup of a product fails only by "not allowed".
pub product_rejected :
    (config : RuntimeConfig) (name id kind : Text) (e : Error)
    → product config name id kind ≡ err e
    → e ≡ sentinel Sentinel.product_rejected
unfolding product
product_rejected config name id kind e h = go _ h
  where
    go : (o : Option Product) → of_kind kind o ≡ err e → e ≡ sentinel Sentinel.product_rejected
    go none g = ground (arith, g)
    go (some p) g = ground (arith, g)

-- The check of the return URLs fails only by "not allowed" …
pub invalid_return_url :
    (s : PaymentSystemService) (urls : List Text) (e : Error)
    → validate_return_urls s urls ≡ err e
    → e ≡ sentinel Sentinel.invalid_return_url
unfolding validate_return_urls
invalid_return_url s [] e h = cc
invalid_return_url s (u ∷ us) e h = elim (Bool-cases (is_allowed_return s u)) [
  | inl b ↦ invalid_return_url s us e (ground (arith, h, b))
  | inr b ↦ ground (arith, h, b)
]

-- … and where it succeeds every URL is allowed.
pub allowed_return_urls :
    (s : PaymentSystemService) (urls : List Text) (u : Unit {0})
    → validate_return_urls s urls ≡ ok u
    → All (λ url. is_allowed_return s url ≡ true) urls
unfolding validate_return_urls
allowed_return_urls s [] v h = tt
allowed_return_urls s (u ∷ us) v h = elim (Bool-cases (is_allowed_return s u)) [
  | inl b ↦ (b, allowed_return_urls s us v (ground (arith, h, b)))
  | inr b ↦ absurd (ground (arith, h, b))
]
