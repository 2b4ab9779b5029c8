-- ===== src/Providers/Apple/Purchases.antt =====
-- What a purchase of the App Store has passed when `VerifyStorePurchase` of provider_apple.go
-- accepts it.
use procyon_modules.Base.{◌≡◌, refl, subst, false, none, arith}
use procyon_modules.Base.Text.{Text, bytes, is_empty, trim_space, eq_iff}
use procyon_modules.Models.Inputs.{PaymentStoreVerificationInput}
use procyon_modules.Models.Errors.{Sentinel, Error, sentinel}
use procyon_modules.Exec.{Result, ok, err, World, Exec}
use procyon_modules.Exec.Rules.{at_bind}
use procyon_modules.Service.Rules.{at_bind_from, at_bind_require}
use procyon_modules.Providers.Calls.{replacing, replaced}
use procyon_modules.Providers.Apple.{AppleTransactionPayload, ApplePaymentProvider}
use procyon_modules.Providers.Apple.Signatures.{verify_jws}
use procyon_modules.Providers.Apple.Verified.{IsVerified, Verifies, verify_jws-Verifies}
use procyon_modules.Providers.Apple.Transactions.{
  check_transaction, keep_transaction, verify_apple_purchase,
}

-- A call that returns although its error would be replaced has returned by itself.
replaced_returns :
    {A : Type 0} (e : Error) (call : Exec A) (w : World) (a : A) (w' : World)
    → replacing e call w ≡ (ok a, w')
    → call w ≡ (ok a, w')
replaced_returns {A} e call w a w' h = go (call w) h
  where
    go :
        (r : Result A × World)
        → ◌≡◌ {A = Result A × World} (replaced e r.0, r.1) (ok a, w')
        → r ≡ (ok a, w')
    go (ok b, w1) q = q
    go (err d, w1) q = cc

module _ (p : ApplePaymentProvider) (identity_id : Text) (input : PaymentStoreVerificationInput)
    (w : World) where
  -- What has been checked of the transaction, in the world after its verification, and what has
  -- happened then.
  pub record IsBound (transaction : AppleTransactionPayload) (w1 : World)
      (res : Result (Unit {0}) × World) : Type 0 where
    pub verified :
        IsVerified p p.library.unmarshal_transaction input.signed_payload w transaction w1
    pub bundle : transaction.bundle_id ≡ p.bundle_id
    pub environment : transaction.environment ≡ p.environment
    pub owner : trim_space transaction.app_account_token ≡ trim_space identity_id
    pub kept : keep_transaction p transaction (bytes "PURCHASE_VERIFIED") none w1 ≡ res

  unfoldable pub Accepts : Result (Unit {0}) × World → Type 0
  Accepts (err e, w') = Unit
  Accepts (ok u, w') =
      (transaction : AppleTransactionPayload) × (w1 : World) × IsBound transaction w1 (ok tt, w')

  checked :
      (transaction : AppleTransactionPayload) (u : Unit {0})
      → is_empty identity_id ≡ false
      → check_transaction p transaction identity_id ≡ ok u
      → (transaction.bundle_id ≡ p.bundle_id)
        × (transaction.environment ≡ p.environment)
        × (trim_space transaction.app_account_token ≡ trim_space identity_id)
  unfolding check_transaction
  checked transaction u given h = ground (
    arith,
    h,
    given,
    eq_iff transaction.bundle_id p.bundle_id,
    eq_iff transaction.environment p.environment,
    eq_iff (trim_space transaction.app_account_token) (trim_space identity_id),
  )

  verify_jws-IsVerified :
      (transaction : AppleTransactionPayload) (w1 : World) (res : Result _ × World)
      → res ≡ (ok transaction, w1)
      → Verifies p p.library.unmarshal_transaction input.signed_payload w res
      → IsVerified p p.library.unmarshal_transaction input.signed_payload w transaction w1
  unfolding Verifies
  verify_jws-IsVerified transaction w1 res h v =
      subst (Verifies p p.library.unmarshal_transaction input.signed_payload w) h v

  failed : (e : Error) (w' : World) → Accepts (err e, w')
  unfolding Accepts
  failed e w' = tt

  accepted :
      (transaction : AppleTransactionPayload) (w1 : World) (res : Result (Unit {0}) × World)
      → (verify_jws p p.library.unmarshal_transaction input.signed_payload w ≡ (ok transaction, w1))
      → (u : Unit {0}) → is_empty identity_id ≡ false
      → check_transaction p transaction identity_id ≡ ok u
      → keep_transaction p transaction (bytes "PURCHASE_VERIFIED") none w1 ≡ res
      → Accepts res
  unfolding Accepts
  accepted transaction w1 (err e, w') v u given c k = tt
  accepted transaction w1 (ok x, w') v u given c k =
      let (bundle, environment, owner) = checked transaction u given c in
      (
        transaction,
        w1,
        record {
          verified = verify_jws-IsVerified transaction w1 _ v (verify_jws-Verifies p _ _ w);
          bundle = bundle;
          environment = environment;
          owner = owner;
          kept = k;
        },
      )

  -- Where `VerifyStorePurchase` returns for an identity, the payload is one that `verifyJWS` has
  -- verified, of a transaction of this app and environment whose account token is that identity,
  -- and what has happened after the verification is what such a transaction brings.
  pub verify_apple_purchase-Accepts :
      is_empty identity_id ≡ false → Accepts (verify_apple_purchase p identity_id input w)
  unfolding verify_apple_purchase
  verify_apple_purchase-Accepts given = at_bind_require Accepts _ _ _ w (failed _ w) λ present.
      at_bind_require Accepts _ _ _ w (failed _ w) λ signed.
        at_bind Accepts
          (replacing (sentinel Sentinel.invalid_signature)
            (verify_jws p p.library.unmarshal_transaction input.signed_payload))
          _ w (λ e w' h. failed e w')
          λ transaction w1 h.
            at_bind_from Accepts (check_transaction p transaction identity_id) _ w1
              (λ e c. failed e w1)
              λ u c.
                accepted transaction w1 _
                  (replaced_returns (sentinel Sentinel.invalid_signature)
                    (verify_jws p p.library.unmarshal_transaction input.signed_payload) w
                    transaction w1 h)
                  u given c refl
