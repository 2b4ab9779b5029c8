-- ===== src/Providers/Apple/Transactions.antt =====
-- The transactions of provider_apple.go: what a signed transaction does to the subscription and the
-- payment that it is about.
use procyon_modules.Base.{Bool, false, ◌&&◌, ◌||◌, not, Option, none, some, leb, if◌then◌else◌}
use procyon_modules.Base.Int.{is_positive, is_zero, less}
use procyon_modules.Base.Text.{Text, bytes, ◌==◌, is_empty, trim_space, to_upper}
use procyon_modules.Models.{
  Time, PaymentStatus, SubscriptionStatus, PaymentSubscription, zero_payment, zero_subscription,
}
use procyon_modules.Models.Inputs.{PaymentStoreVerificationInput}
use procyon_modules.Models.Errors.{Sentinel, Error, sentinel, message}
use procyon_modules.Exec.{Result, ok, err, Exec, pure, from, time_now, ◌>>=◌, ◌>>◌}
use procyon_modules.Exec.Results.{require}
use procyon_modules.Config.{Product, product, config_with}
use procyon_modules.Store.Payments.{upsert_payment}
use procyon_modules.Store.Subscriptions.{upsert_subscription}
use procyon_modules.Providers.Calls.{replacing, apple_milliseconds_time, unix_milli}
use procyon_modules.Providers.Apple.{
  AppleTransactionPayload, AppleRenewalPayload, ApplePaymentProvider, apple,
}
use procyon_modules.Providers.Apple.Signatures.{verify_jws}

-- The status of a transaction that its notification does not tell.
abbrev dated_status : AppleTransactionPayload → Time → SubscriptionStatus
dated_status transaction now =
    if is_positive transaction.revocation_date
    then SubscriptionStatus.revoked
    else if is_positive transaction.expires_date
        && leb (apple_milliseconds_time transaction.expires_date) now
    then SubscriptionStatus.expired
    else SubscriptionStatus.active

-- `appleSubscriptionStatus`
unfoldable pub apple_subscription_status :
    Text → AppleTransactionPayload → Time → SubscriptionStatus
unfolding to_upper apple_milliseconds_time
apple_subscription_status notification_type transaction now =
    let kind = to_upper notification_type in
    if kind == bytes "REFUND"
    then SubscriptionStatus.refunded
    else if kind == bytes "REVOKE"
    then SubscriptionStatus.revoked
    else if kind == bytes "EXPIRED"
    then SubscriptionStatus.expired
    else if kind == bytes "DID_FAIL_TO_RENEW" || kind == bytes "GRACE_PERIOD_EXPIRED"
    then SubscriptionStatus.past_due
    else dated_status transaction now

-- The status after the renewal info has been read.
unfoldable pub renewed_status : Time → AppleRenewalPayload → SubscriptionStatus → SubscriptionStatus
unfolding unix_milli
renewed_status now renewal status =
    if not (is_zero renewal.expiration_intent)
    then SubscriptionStatus.past_due
    else if less (unix_milli now) renewal.grace_period_expires_date
    then SubscriptionStatus.trialing
    else status

-- The status, and whether the subscription ends with its period, under the renewal info, which has
-- to be of the same subscription.
unfoldable pub with_renewal :
    Time
    → AppleTransactionPayload
    → Option AppleRenewalPayload
    → SubscriptionStatus
    → Result (SubscriptionStatus × Bool)
unfolding renewed_status
with_renewal now transaction none status = ok (status, false)
with_renewal now transaction (some renewal) status =
    if not (is_empty renewal.original_transaction_id)
      && not (renewal.original_transaction_id == transaction.original_transaction_id)
    then err (sentinel Sentinel.invalid_signature)
    else ok (renewed_status now renewal status, is_zero renewal.auto_renew_status)

-- The status of the payment of a transaction.
unfoldable pub apple_payment_status : SubscriptionStatus → PaymentStatus
apple_payment_status SubscriptionStatus.refunded = PaymentStatus.refunded
apple_payment_status SubscriptionStatus.revoked = PaymentStatus.canceled
apple_payment_status _ = PaymentStatus.succeeded

abbrev pub invalid_signature : Error
invalid_signature = sentinel Sentinel.invalid_signature

module _ (p : ApplePaymentProvider) where
  -- The row of the subscription of a transaction.
  unfoldable pub apple_subscription :
      AppleTransactionPayload → SubscriptionStatus → Bool → Product → PaymentSubscription
  unfolding apple_milliseconds_time trim_space
  apple_subscription transaction status cancel sold = record zero_subscription {
    provider = apple;
    external_subscription_id = transaction.original_transaction_id;
    identity_id = trim_space transaction.app_account_token;
    plan_code = sold.plan_code;
    status = status;
    current_period_start = apple_milliseconds_time transaction.purchase_date;
    current_period_end = apple_milliseconds_time transaction.expires_date;
    cancel_at_period_end = cancel;
  }

  -- The payment of a transaction that has an id.
  unfoldable pub record_transaction :
      AppleTransactionPayload → SubscriptionStatus → Product → Exec (Unit {0})
  unfolding apple_milliseconds_time trim_space apple_payment_status
  record_transaction transaction status sold =
      if not (is_empty transaction.transaction_id)
      then upsert_payment (record zero_payment {
        provider = apple;
        external_id = transaction.transaction_id;
        identity_id = trim_space transaction.app_account_token;
        subscription_id = transaction.original_transaction_id;
        price_id = sold.plan_code;
        status = apple_payment_status status;
        kind = bytes "subscription_cycle";
        amount_minor = sold.amount_minor;
        currency = sold.currency;
        occurred_at = apple_milliseconds_time transaction.purchase_date;
      })
      else pure tt

  -- The transaction is of this app and environment, and of the identity that is expected, if any.
  unfoldable pub check_transaction : AppleTransactionPayload → Text → Result (Unit {0})
  unfolding trim_space
  check_transaction transaction expected_identity =
      if not (transaction.bundle_id == p.bundle_id && transaction.environment == p.environment)
      then err invalid_signature
      else if not (is_empty expected_identity)
          && not (trim_space transaction.app_account_token == trim_space expected_identity)
      then err (sentinel Sentinel.ownership_conflict)
      else if is_empty (trim_space transaction.app_account_token)
          || is_empty transaction.original_transaction_id
      then err (message (bytes "Apple transaction cannot be associated with an identity"))
      else ok tt

  -- What follows the checks of `processAppleTransaction`.
  unfoldable pub keep_transaction :
      AppleTransactionPayload → Text → Option AppleRenewalPayload → Exec (Unit {0})
  unfolding apple_subscription record_transaction with_renewal apple_subscription_status
  keep_transaction transaction notification_type renewal = do
    now ← time_now
    (status, cancel) ← from (
        with_renewal now transaction renewal
          (apple_subscription_status notification_type transaction now))
    sold ←
        from (product (config_with p.products) apple transaction.product_id (bytes "subscription"))
    upsert_subscription (apple_subscription transaction status cancel sold)
    record_transaction transaction status sold

  -- `processAppleTransaction`
  unfoldable pub process_apple_transaction :
      Text → Text → Text → Option AppleRenewalPayload → Exec (Unit {0})
  unfolding check_transaction keep_transaction
  process_apple_transaction signed_transaction expected_identity notification_type renewal = do
    from (
        require (not (is_empty (trim_space signed_transaction)))
          (message (bytes "Apple signed transaction is missing")))
    transaction ←
        replacing invalid_signature
          (verify_jws p p.library.unmarshal_transaction signed_transaction)
    from (check_transaction transaction expected_identity)
    keep_transaction transaction notification_type renewal

  -- `VerifyStorePurchase`
  unfoldable pub verify_apple_purchase : Text → PaymentStoreVerificationInput → Exec (Unit {0})
  unfolding process_apple_transaction
  verify_apple_purchase identity_id input = do
    from (
        require (not (is_empty (trim_space input.signed_payload)))
          (message (bytes "signed_payload is required for Apple verification")))
    process_apple_transaction input.signed_payload identity_id (bytes "PURCHASE_VERIFIED") none
