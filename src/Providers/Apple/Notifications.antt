-- ===== src/Providers/Apple/Notifications.antt =====
-- The notifications and the reconciliation of provider_apple.go, which lead to a transaction.
use procyon_modules.Base.{
  Bool, true, false, ◌&&◌, ◌||◌, not, Option, none, some, List, [], ◌∷◌, ◌++◌, eqb, if◌then◌else◌,
}
use procyon_modules.Base.Int.{ℤ, pos, same_int}
use procyon_modules.Base.Text.{Text, bytes, ◌==◌, is_empty, trim_space}
use procyon_modules.Base.Text.Numbers.{trim_end}
use procyon_modules.Models.{PaymentSubscription, PaymentWebhookEvent, zero_webhook}
use procyon_modules.Models.Errors.{Sentinel, Error, sentinel, message}
use procyon_modules.Exec.{Result, ok, err, Exec, pure, raise, from, time_now, ◌>>=◌, ◌>>◌}
use procyon_modules.Exec.Results.{require}
use procyon_modules.Store.Table.{find}
use procyon_modules.Providers.Calls.{wrapping, replacing}
use procyon_modules.Providers.Delivery.{deliver}
use procyon_modules.Providers.Apple.{
  AppleRenewalPayload, AppleNotificationPayload, LastTransaction, HttpResponse,
  ApplePaymentProvider, apple,
}
use procyon_modules.Providers.Apple.Signatures.{verify_jws, server_api_token, read_body}
use procyon_modules.Providers.Apple.Transactions.{process_apple_transaction, invalid_signature}

-- `appleStatusNotification`
unfoldable pub apple_status_notification : ℤ → Text
apple_status_notification status =
    if same_int status (pos 1)
    then bytes "DID_RENEW"
    else if same_int status (pos 2)
    then bytes "EXPIRED"
    else if same_int status (pos 3) || same_int status (pos 4)
    then bytes "DID_FAIL_TO_RENEW"
    else if same_int status (pos 5)
    then bytes "REVOKE"
    else bytes "STATUS_UNKNOWN"

-- The first of the last transactions that is of this subscription.
unfoldable pub last_transaction : Text → List (List LastTransaction) → Option LastTransaction
unfolding find
last_transaction id [] = none
last_transaction id (group ∷ groups) =
    let rest = last_transaction id groups in
    elim (find (λ item. item.original_transaction_id == id) group) [
      | some item ↦ some item
      | none ↦ rest
    ]

module _ (p : ApplePaymentProvider) where
  -- The signed renewal info, where there is one; in a notification it has to be of this environment.
  unfoldable pub read_renewal : Bool → Text → Exec (Option AppleRenewalPayload)
  read_renewal same_environment signed =
      if is_empty signed
      then pure none
      else replacing invalid_signature (verify_jws p p.library.unmarshal_renewal signed)
        >>= λ renewal.
            from (
              require (not same_environment || renewal.environment == p.environment)
                invalid_signature)
            >>= λ u. pure (some renewal)

  -- `processAppleNotification`
  unfoldable pub process_apple_notification : AppleNotificationPayload → Exec (Unit {0})
  unfolding read_renewal process_apple_transaction
  process_apple_notification notification = do
    renewal ← read_renewal true notification.signed_renewal_info
    if is_empty notification.signed_transaction_info
        then pure tt
        else process_apple_transaction p notification.signed_transaction_info []
            notification.notification_type renewal

  -- Of this app, of this environment, and in production of this id.
  unfoldable pub is_addressed : Text → Text → ℤ → Bool
  is_addressed bundle_id environment app_apple_id =
      bundle_id == p.bundle_id
      && (environment == p.environment
          && not
              (p.environment == bytes "Production" && not (same_int app_apple_id p.app_apple_id)))

  abbrev signed_payload : Result Text → Result Text
  signed_payload (err e) = err (message (bytes "invalid Apple notification envelope"))
  signed_payload (ok payload) =
      if is_empty (trim_space payload)
      then err (message (bytes "invalid Apple notification envelope"))
      else ok payload

  -- The event that is claimed.
  abbrev apple_event : Text → AppleNotificationPayload → PaymentWebhookEvent
  apple_event body notification = record zero_webhook {
    provider = apple;
    event_id = notification.notification_uuid;
    event_type = notification.notification_type ++ b':' ∷ notification.subtype;
    payload = body;
  }

  -- `HandleWebhook`, which does not read the signature header.
  unfoldable pub handle_apple_webhook : Text → Text → Exec (Unit {0})
  unfolding is_addressed process_apple_notification
  handle_apple_webhook body signature = do
    payload ← from (signed_payload (p.library.unmarshal_envelope body))
    notification ←
        replacing invalid_signature (verify_jws p p.library.unmarshal_notification payload)
    from (
        require
          (is_addressed notification.bundle_id notification.environment notification.app_apple_id)
          invalid_signature)
    from (
        require (not (is_empty notification.notification_uuid))
          (message (bytes "Apple notification UUID is missing")))
    deliver p.webhook_lease (apple_event body notification)
        (process_apple_notification notification)

  abbrev status_error : HttpResponse → Error
  status_error response = message (
      bytes "Apple subscription status response "
      ++ response.status
      ++ bytes ": "
      ++ trim_space (response.read_all 4096).0)

  abbrev reconcile_last : PaymentSubscription → Option LastTransaction → Exec (Unit {0})
  reconcile_last stored none = raise (sentinel Sentinel.record_not_found)
  reconcile_last stored (some item) = do
    renewal ← read_renewal false item.signed_renewal_info
    process_apple_transaction p item.signed_transaction_info stored.identity_id
        (apple_status_notification item.status) renewal

  -- `ReconcileSubscription`
  unfoldable pub reconcile_apple_subscription : PaymentSubscription → Exec (Unit {0})
  unfolding server_api_token read_renewal process_apple_transaction apple_status_notification
      is_addressed last_transaction trim_end
  reconcile_apple_subscription stored = do
    now ← time_now
    token ← server_api_token p now
    let url =
        trim_end b'/' p.server_api_url
        ++ bytes "/inApps/v1/subscriptions/"
        ++ p.library.path_escape stored.external_subscription_id
    from (p.library.check_url url)
    response ←
        wrapping (bytes "Apple subscription status request")
          (p.library.get_authorized url (bytes "Bearer " ++ token))
    from (require (eqb response.status_code 200) (status_error response))
    body ← from (read_body (response.read_all 1048576))
    status ← from (p.library.unmarshal_status body)
    from (
        require (is_addressed status.bundle_id status.environment status.app_apple_id)
          invalid_signature)
    reconcile_last stored (last_transaction stored.external_subscription_id status.groups)
