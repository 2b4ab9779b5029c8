-- ===== src/Providers/Apple/Refunds.antt =====
-- What provider_apple.go keeps of a refund, under the renewal info that comes with it.
use procyon_modules.Base.{
  ◌≡◌, refl, ◌∙◌, ap, Bool, true, false, not, Option, none, some, arith, if◌then◌else◌,
}
use procyon_modules.Base.Int.{is_zero, less}
use procyon_modules.Base.Text.{Text, bytes, ◌==◌, is_empty, trim_space, to_upper}
use procyon_modules.Models.{
  Time, PaymentStatus, SubscriptionStatus, PaymentEvent, PaymentSubscription,
}
use procyon_modules.Exec.{ok, World}
use procyon_modules.Store.Payments.Settled.{settled}
use procyon_modules.Store.Payments.Upsert.{payment_of, HasPayments}
use procyon_modules.Store.Subscriptions.Upsert.{subscription_of, HasSubscriptions}
use procyon_modules.Providers.Calls.{unix_milli}
use procyon_modules.Providers.Apple.{
  AppleTransactionPayload, AppleRenewalPayload, ApplePaymentProvider, apple,
}
use procyon_modules.Providers.Apple.Transactions.{
  apple_subscription_status, with_renewal, apple_payment_status, keep_transaction,
}
use procyon_modules.Providers.Apple.Kept.{keep_transaction-Keeps}

-- The statuses of the subscription and of the payment that a refund is reported as: the renewal info
-- comes first, an expiration intent before a grace period.
abbrev pub outcome : Time → Option AppleRenewalPayload → SubscriptionStatus × PaymentStatus
outcome now none = (SubscriptionStatus.refunded, PaymentStatus.refunded)
outcome now (some renewal) =
    if not (is_zero renewal.expiration_intent)
    then (SubscriptionStatus.past_due, PaymentStatus.succeeded)
    else if less (unix_milli now) renewal.grace_period_expires_date
    then (SubscriptionStatus.trialing, PaymentStatus.succeeded)
    else (SubscriptionStatus.refunded, PaymentStatus.refunded)

refunded_status :
    (now : Time) (kind : Text) (transaction : AppleTransactionPayload)
    → (to_upper kind == bytes "REFUND") ≡ true
    → apple_subscription_status kind transaction now ≡ SubscriptionStatus.refunded
unfolding apple_subscription_status
refunded_status now kind transaction h = rw h refl

refund_outcome :
    (now : Time) (kind : Text) (transaction : AppleTransactionPayload)
    (renewal : Option AppleRenewalPayload) (status : SubscriptionStatus) (cancel : Bool)
    → (to_upper kind == bytes "REFUND") ≡ true
    → with_renewal now transaction renewal (apple_subscription_status kind transaction now)
      ≡ ok (status, cancel)
    → (status ≡ (outcome now renewal).0) × (apple_payment_status status ≡ (outcome now renewal).1)
unfolding with_renewal apple_payment_status
refund_outcome now kind transaction none status cancel k h =
    let e : SubscriptionStatus.refunded ≡ status =
      ground (arith, h, refunded_status now kind transaction k) in
    (rw (← e) refl, rw (← e) refl)
refund_outcome now kind transaction (some renewal) status cancel k h = (
  ground (arith, h, refunded_status now kind transaction k),
  ground (arith, h, refunded_status now kind transaction k),
)

module _ (p : ApplePaymentProvider) (transaction : AppleTransactionPayload) where
  -- The subscription of the transaction has the one status, and its payment the other one, unless
  -- the status that it had before has a higher rank.
  abbrev pub IsReported : SubscriptionStatus → PaymentStatus → World → World → Type 0
  IsReported status reported w w' =
      ((r : PaymentSubscription) × (subscription_of apple transaction.original_transaction_id w'.db
          ≡ some r)
        × (r.status ≡ status))
      × ((x : PaymentEvent) × (payment_of apple transaction.transaction_id w'.db ≡ some x)
          × (x.status ≡ settled (payment_of apple transaction.transaction_id w.db) reported))

  -- On tables whose indexes hold, where the call that keeps a refund notification of a transaction
  -- with an id and an account token has returned: the subscription's row is refunded and the
  -- payment is reported as refunded, where no renewal info with an expiration intent or a running
  -- grace period comes with it. With an expiration intent the subscription is past due, else with a
  -- running grace period it is trialing, and either way the payment is reported as succeeded. The
  -- payment's row takes the reported status, unless the status that it had before has a higher
  -- rank.
  pub keep_transaction-IsReported :
      (kind : Text) (renewal : Option AppleRenewalPayload) (w w' : World)
      → HasSubscriptions w.db
      → HasPayments w.db
      → (to_upper kind == bytes "REFUND") ≡ true
      → is_empty (trim_space transaction.app_account_token) ≡ false
      → is_empty transaction.transaction_id ≡ false
      → keep_transaction p transaction kind renewal w ≡ (ok tt, w')
      → IsReported (outcome w.clock renewal).0 (outcome w.clock renewal).1 w w'
  keep_transaction-IsReported kind renewal w w' v u k g n h =
      let (status, cancel, told, row) =
        keep_transaction-Keeps p transaction kind renewal w w' v u g h in
      let (r, found, identity, kept, until, paid) = row in
      let (x, stored, settles) = paid n in
      let (s, q) = refund_outcome w.clock kind transaction renewal status cancel k told in
      (
        (r, found, kept ∙ s),
        (x, stored, settles ∙ ap (settled (payment_of apple transaction.transaction_id w.db)) q),
      )
