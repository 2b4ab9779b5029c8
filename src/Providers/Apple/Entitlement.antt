-- ===== src/Providers/Apple/Entitlement.antt =====
-- What a transaction of provider_apple.go entitles to, once it has been kept.
use procyon_modules.Base.{◌≡◌, refl, Bool, false, ◌&&◌, Option, some, ltb}
use procyon_modules.Base.Text.{Text, ◌==◌, is_empty, trim_space}
use procyon_modules.Models.{Time, SubscriptionStatus, PaymentSubscription}
use procyon_modules.Exec.{ok, World}
use procyon_modules.Store.Payments.Upsert.{HasPayments}
use procyon_modules.Store.Subscriptions.{is_entitling, is_current}
use procyon_modules.Store.Subscriptions.Upsert.{subscription_of, HasSubscriptions}
use procyon_modules.Providers.Calls.{apple_milliseconds_time}
use procyon_modules.Providers.Apple.{
  AppleTransactionPayload, AppleRenewalPayload, ApplePaymentProvider, apple,
}
use procyon_modules.Providers.Apple.Kept.{keep_transaction-Keeps}
use procyon_modules.Providers.Apple.Transactions.{
  apple_subscription_status, with_renewal, keep_transaction,
}

module _ (p : ApplePaymentProvider) (transaction : AppleTransactionPayload) where
  -- The row entitles the token's identity, and no one else, under the status until the expiry.
  abbrev pub Entitles : SubscriptionStatus → PaymentSubscription → Type 0
  Entitles status r =
      (who : Text) (now : Time)
      → is_current who now r ≡ (
          trim_space transaction.app_account_token == who
          && (is_entitling status && ltb now (apple_milliseconds_time transaction.expires_date)))

  row-Entitles :
      (status : SubscriptionStatus) (r : PaymentSubscription)
      → r.identity_id ≡ trim_space transaction.app_account_token
      → r.status ≡ status
      → r.current_period_end ≡ apple_milliseconds_time transaction.expires_date
      → Entitles status r
  unfolding is_current
  row-Entitles status r i s e who now = rw (i, s, e) refl

  -- On tables whose indexes hold, once a transaction with an account token has been kept, its
  -- subscription's row entitles that token's identity, and no one else, before the expiry date, if
  -- the status that its notification and its renewal info give is one that entitles, and else at no
  -- time. From the expiry date on the row entitles no one, also where the status is TRIALING for a
  -- grace period that lasts longer.
  pub keep_transaction-Entitles :
      (kind : Text) (renewal : Option AppleRenewalPayload) (w w' : World)
      → HasSubscriptions w.db
      → HasPayments w.db
      → is_empty (trim_space transaction.app_account_token) ≡ false
      → keep_transaction p transaction kind renewal w ≡ (ok tt, w')
      → (status : SubscriptionStatus) × (cancel : Bool) × (r : PaymentSubscription) × (with_renewal
            w.clock transaction renewal
            (apple_subscription_status kind transaction w.clock)
          ≡ ok (status, cancel))
        × (subscription_of apple transaction.original_transaction_id w'.db ≡ some r)
        × Entitles status r
  keep_transaction-Entitles kind renewal w w' v u g h =
      let (status, cancel, told, row) =
        keep_transaction-Keeps p transaction kind renewal w w' v u g h in
      let (r, found, identity, kept, until, paid) = row in
      (status, cancel, r, told, found, row-Entitles status r identity kept until)
