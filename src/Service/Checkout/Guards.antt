-- ===== src/Service/Checkout/Guards.antt =====
-- The guards of `CreateCheckout` of service.go.
use procyon_modules.Base.{
  ◌≡◌, refl, ap, Bool, true, false, ◌⊎◌, inl, inr, not, some, [], ◌∷◌, All, arith,
}
use procyon_modules.Base.Text.{Text, bytes, is_empty, trim_space, normalized}
use procyon_modules.Models.Errors.{Sentinel, Error, sentinel}
use procyon_modules.Models.Inputs.{PaymentCheckoutInput}
use procyon_modules.Exec.{Result, ok, err, World, Exec}
use procyon_modules.Config.{Product, product}
use procyon_modules.Service.{
  PaymentSystemService, Provider, provider, capability, measured, lookup, is_allowed_return,
  validate_return_urls,
}
use procyon_modules.Service.Rules.{
  at_bind_from, at_bind_or_fail, at_bind_require, product_rejected, invalid_return_url,
  allowed_return_urls,
}
use procyon_modules.Service.Checkout.{create_checkout}

-- What a checkout has passed: both return URLs are allowed, the idempotency key is not blank, and
-- the product is on sale for this provider and of this kind.
pub record Passes (s : PaymentSystemService)
    (kind name price_id success_url cancel_url idempotency_key : Text) : Type 0 where
  pub urls : All (λ url. is_allowed_return s url ≡ true) (success_url ∷ cancel_url ∷ [])
  pub keyed : is_empty (trim_space idempotency_key) ≡ false
  pub sold : (q : Product) × (product s.config name price_id kind ≡ ok q)

-- The error is one of the service's, and nothing has happened.
abbrev pub Refused : {A : Type 0} → World → Result A × World → Type 0
Refused w res = (x : Sentinel) × (res ≡ (err (sentinel x), w))

unfoldable pub Checks :
    PaymentSystemService → Text → PaymentCheckoutInput → World → Result Text × World → Type 0
Checks s identity_id input w res =
    Refused w res
    ⊎ ((p : Provider) × (call : Text → Text → Text → Text → Text → Exec Text) × (lookup
            (normalized input.provider) s.providers
          ≡ some p)
        × (p.create_checkout ≡ some call)
        × Passes s (bytes "one_time") input.provider input.price_id input.success_url
            input.cancel_url input.idempotency_key
        × (res
            ≡ measured input.provider
                (call identity_id input.price_id input.success_url input.cancel_url
                  input.idempotency_key)
                w))

module _ (s : PaymentSystemService) (identity_id : Text) (input : PaymentCheckoutInput)
    (w : World) where
  abbrev P : Result Text × World → Type 0
  P = Checks s identity_id input w

  refused : (x : Sentinel) → P (err (sentinel x), w)
  unfolding Checks
  refused x = inl (x, refl)

  refused_by : (x : Sentinel) (e : Error) → e ≡ sentinel x → P (err e, w)
  unfolding Checks
  refused_by x e h = inl (x, ap (λ d. (err d, w)) h)

  set : (b : Bool) → not b ≡ true → b ≡ false
  set b h = ground arith

  reached :
      (p : Provider) (call : Text → Text → Text → Text → Text → Exec Text)
      → lookup (normalized input.provider) s.providers ≡ some p
      → p.create_checkout ≡ some call
      → (u : Unit {0}) → validate_return_urls s (input.success_url ∷ input.cancel_url ∷ []) ≡ ok u
      → is_empty (trim_space input.idempotency_key) ≡ false
      → (q : Product) → product s.config input.provider input.price_id (bytes "one_time") ≡ ok q
      → P (
          measured input.provider
            (call identity_id input.price_id input.success_url input.cancel_url
              input.idempotency_key)
            w)
  unfolding Checks
  reached p call known capable u urls keyed q sold = inr (
    p,
    call,
    known,
    capable,
    record { urls = allowed_return_urls s _ u urls; keyed = keyed; sold = (q, sold) },
    refl,
  )

  -- `CreateCheckout` either answers with an error of the service, and nothing has changed, or it is
  -- one measured call of the provider's checkout; then both return URLs are allowed, the provider
  -- is one of the service's and sells checkouts, the idempotency key is not blank, and the product
  -- is on sale there as a one-time one.
  pub create_checkout-Checks : P (create_checkout s identity_id input w)
  unfolding create_checkout provider capability
  create_checkout-Checks =
      at_bind_from P (validate_return_urls s (input.success_url ∷ input.cancel_url ∷ [])) _ w
        (λ e h. refused_by Sentinel.invalid_return_url e (invalid_return_url s _ e h))
        λ u urls. at_bind_or_fail P Sentinel.provider_unsupported _ _ w (refused _) λ p known.
          at_bind_or_fail P Sentinel.capability_missing _ _ w (refused _) λ call capable.
            at_bind_require P _ _ _ w (refused _) λ keyed.
              at_bind_from P (product s.config input.provider input.price_id (bytes "one_time")) _ w
                (λ e h.
                  refused_by Sentinel.product_rejected e (product_rejected s.config _ _ _ e h))
                λ q sold. reached p call known capable u urls (set _ keyed) q sold
