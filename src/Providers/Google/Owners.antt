-- ===== src/Providers/Google/Owners.antt =====
-- The account binding of a purchase of Google Play.
use procyon_modules.Base.{
  ◌≡◌, refl, sym, subst, ◌∙◌, true, false, ◌&&◌, ◌||◌, not, ◌⊎◌, inl, inr, arith,
}
use mathlib.Core.Bool.{false≢true}
use procyon_modules.Base.Text.{Text, ◌==◌, is_empty}
use procyon_modules.Models.Inputs.{PaymentStoreVerificationInput}
use procyon_modules.Models.Errors.{Sentinel, Error, sentinel}
use procyon_modules.Exec.{Result, ok, err, World, Exec, ◌>>=◌}
use procyon_modules.Service.Rules.{at_bind_require}
use procyon_modules.Providers.Google.{SubscriptionPurchase, GooglePaymentProvider}
use procyon_modules.Providers.Google.Purchases.{
  account_binding, check_owner, verify_and_store, verify_google_purchase,
}

-- The call has failed at once, or with "ownership conflict" in the world after the purchase has
-- been fetched.
unfoldable pub Rejects : World → World → Result (Unit {0}) × World → Type 0
Rejects w w1 res =
    ((e : Error) × (res ≡ (err e, w))) ⊎ (res ≡ (err (sentinel Sentinel.ownership_conflict), w1))

at_once : (w w1 : World) (e : Error) → Rejects w w1 (err e, w)
unfolding Rejects
at_once w w1 e = inl (e, refl)

by_conflict : (w w1 : World) → Rejects w w1 (err (sentinel Sentinel.ownership_conflict), w1)
unfolding Rejects
by_conflict w w1 = inr refl

at_bind_known :
    {A B : Type 0} (P : Result B × World → Type 0) (m : Exec A) (f : A → Exec B) (w w' : World)
    (a : A)
    → m w ≡ (ok a, w')
    → P (f a w')
    → P ((m >>= f) w)
unfolding ◌>>=◌
at_bind_known P m f w w' a h done =
    subst (λ r. P (elim r.0 [ ok b ↦ f b r.1 | err e ↦ (err e, r.1) ])) (sym h) done

module _ (p : GooglePaymentProvider) (identity_id : Text) (w w1 : World)
    (purchase : SubscriptionPurchase)
    (other : (purchase.obfuscated_external_account_id == account_binding p identity_id)
      ≡ false) where
  stranger :
      (not true
        || (not (is_empty purchase.obfuscated_external_account_id)
            && purchase.obfuscated_external_account_id == account_binding p identity_id))
      ≡ false
  stranger = ground (arith, other)

  verify-Rejects :
      (token product_id : Text)
      → p.get_purchase p.package_name token w ≡ (ok purchase, w1)
      → Rejects w w1 (verify_and_store p identity_id token product_id true w)
  unfolding verify_and_store check_owner
  verify-Rejects token product_id h = at_bind_require P _ _ _ w (at_once w w1 _) λ given.
      at_bind_known P _ _ w w1 purchase (rw h refl) (
        at_bind_require P _ _ _ w1 (by_conflict w w1)
          (λ mine. absurd (false≢true (sym stranger ∙ mine))))
    where
      P : Result (Unit {0}) × World → Type 0
      P = Rejects w w1

  -- A purchase token whose account on Google Play is not bound to the identity that presents it is
  -- rejected, and the store is not reached: nothing happens after the purchase has been fetched.
  pub verify_google_purchase-Rejects :
      (input : PaymentStoreVerificationInput)
      → p.get_purchase p.package_name input.purchase_token w ≡ (ok purchase, w1)
      → Rejects w w1 (verify_google_purchase p identity_id input w)
  unfolding verify_google_purchase
  verify_google_purchase-Rejects input h =
      at_bind_require (Rejects w w1) _ _ _ w (at_once w w1 _)
        (λ same. verify-Rejects input.purchase_token input.product_id h)
