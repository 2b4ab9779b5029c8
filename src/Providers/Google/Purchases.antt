-- ===== src/Providers/Google/Purchases.antt =====
-- The purchases of provider_google.go: their verification, what is kept of one, and the encryption of
-- its token.
use procyon_modules.Base.{
  Bool, true, false, ◌&&◌, ◌||◌, not, none, List, [], ◌∷◌, ◌++◌, leb, if◌then◌else◌, length, take,
  drop,
}
use procyon_modules.Base.Text.{Text, bytes, ◌==◌, is_empty, trim_space}
use procyon_modules.Models.{Time, PaymentStatus, SubscriptionStatus, PaymentSubscription}
use procyon_modules.Models.Inputs.{PaymentStoreVerificationInput}
use procyon_modules.Models.Errors.{Sentinel, Error, sentinel, message}
use procyon_modules.Exec.{Result, ok, err, Exec, pure, raise, from, random_bytes, ◌>>=◌, ◌>>◌}
use procyon_modules.Exec.Results.{require, wrap}
use procyon_modules.Config.{Product, product}
use procyon_modules.Store.Webhooks.{hex}
use procyon_modules.Store.Payments.{upsert_payment}
use procyon_modules.Store.Subscriptions.{upsert_subscription}
use procyon_modules.Providers.Calls.{wrapping}
use procyon_modules.Providers.Google.{LineItem, SubscriptionPurchase, GooglePaymentProvider, google}

-- `mapGoogleV2Status`
unfoldable pub map_google_v2_status : Text → SubscriptionStatus
map_google_v2_status v =
    if v == bytes "SUBSCRIPTION_STATE_ACTIVE"
    then SubscriptionStatus.active
    else if v == bytes "SUBSCRIPTION_STATE_IN_GRACE_PERIOD"
    then SubscriptionStatus.trialing
    else if v == bytes "SUBSCRIPTION_STATE_ON_HOLD" || v == bytes "SUBSCRIPTION_STATE_PAUSED"
    then SubscriptionStatus.past_due
    else if v == bytes "SUBSCRIPTION_STATE_CANCELED"
    then SubscriptionStatus.canceled
    else SubscriptionStatus.expired

abbrev first_item : List LineItem → Exec LineItem
first_item [] = raise (message (bytes "Google subscription has no line items"))
first_item (i ∷ items) = pure i

-- The start of a purchase: an empty text that does not parse is Go's zero time.
abbrev start_of : Text → Result Time → Result Time
start_of text (ok t) = ok t
start_of text (err e) =
    if is_empty text then ok 0 else wrap (bytes "invalid Google start time") (err e)

-- `err != nil && !googleAcknowledgeAlreadyDone(err)`
abbrev unless_done : (Error → Bool) → Result (Unit {0}) → Result (Unit {0})
unless_done done (ok u) = ok u
unless_done done (err e) =
    if done e then ok tt else wrap (bytes "acknowledge Google Play subscription") (err e)

abbrev is_paid : SubscriptionStatus → Bool
is_paid SubscriptionStatus.active = true
is_paid SubscriptionStatus.trialing = true
is_paid _ = false

module _ (p : GooglePaymentProvider) where
  -- `accountBinding`
  unfoldable pub account_binding : Text → Text
  account_binding identity_id = hex (p.sha256 (bytes "procyon-payment:" ++ trim_space identity_id))

  -- `googleTokenKey`
  unfoldable pub google_token_key : Text → Text
  google_token_key token = bytes "sha256:" ++ hex (p.sha256 token)

  -- `encryptToken`
  unfoldable pub encrypt_token : Text → Exec Text
  encrypt_token token = do
    gcm ← from p.gcm
    nonce ← random_bytes gcm.nonce_size
    pure (p.encode_raw (nonce ++ gcm.seal nonce token p.package_name))

  -- `decryptToken`
  unfoldable pub decrypt_token : Text → Exec Text
  decrypt_token encoded = do
    raw ← from (p.decode_raw encoded)
    gcm ← from p.gcm
    from (
        require (leb gcm.nonce_size (length raw))
          (message (bytes "invalid encrypted Google token")))
    from (gcm.open_sealed (take gcm.nonce_size raw) (drop gcm.nonce_size raw) p.package_name)

  -- The check that the account of the purchase is the identity's, where ownership is required.
  unfoldable pub check_owner : Bool → Text → Text → Result (Unit {0})
  unfolding account_binding
  check_owner require_ownership identity_id actual =
      require
        (not require_ownership || (not (is_empty actual) && actual == account_binding identity_id))
        (sentinel Sentinel.ownership_conflict)

  -- Where the acknowledgement is pending, it is sent.
  abbrev acknowledge_purchase : SubscriptionPurchase → Text → Text → Exec (Unit {0})
  acknowledge_purchase purchase product_id token w =
      let (r, w') = p.acknowledge p.package_name product_id token w in
      if purchase.acknowledgement_state == bytes "ACKNOWLEDGEMENT_STATE_PENDING"
      then (unless_done p.acknowledge_already_done r, w')
      else (ok tt, w)

  -- The payment of the purchase, if it has an order and is paid.
  abbrev record_order : Text → Text → Text → SubscriptionStatus → Time → Product → Exec (Unit {0})
  record_order identity_id key order_id status start sold =
      if not (is_empty order_id) && is_paid status
      then upsert_payment (record {
        id = 0;
        provider = google;
        external_id = order_id;
        identity_id = identity_id;
        customer_id = [];
        subscription_id = key;
        price_id = sold.plan_code;
        status = PaymentStatus.succeeded;
        kind = bytes "subscription_cycle";
        amount_minor = sold.amount_minor;
        currency = sold.currency;
        occurred_at = start;
        created_at = 0;
        updated_at = 0;
      })
      else pure tt

  -- `verifyAndStore`
  unfoldable pub verify_and_store : Text → Text → Text → Bool → Exec (Unit {0})
  unfolding map_google_v2_status google_token_key encrypt_token
  verify_and_store identity_id purchase_token expected_product require_ownership = do
    from (
        require
          (not (is_empty (trim_space identity_id)) && not (is_empty (trim_space purchase_token)))
          (message (bytes "identity and purchase token are required")))
    purchase ←
        wrapping (bytes "verify Google Play subscription")
          (p.get_purchase p.package_name purchase_token)
    from (check_owner require_ownership identity_id purchase.obfuscated_external_account_id)
    item ← first_item purchase.line_items
    from (
        require (is_empty expected_product || item.product_id == expected_product)
          (sentinel Sentinel.product_rejected))
    sold ← from (product p.config google item.product_id (bytes "subscription"))
    acknowledge_purchase purchase item.product_id purchase_token
    start ← from (start_of purchase.start_time (p.parse_time purchase.start_time))
    end ← from (wrap (bytes "invalid Google expiry time") (p.parse_time item.expiry_time))
    provider_data ← encrypt_token purchase_token
    upsert_subscription (record {
      id = 0;
      provider = google;
      external_subscription_id = google_token_key purchase_token;
      identity_id = identity_id;
      customer_id = [];
      plan_code = sold.plan_code;
      status = map_google_v2_status purchase.subscription_state;
      current_period_start = start;
      current_period_end = end;
      cancel_at = none;
      cancel_at_period_end = not item.auto_renew_enabled;
      provider_data = provider_data;
      created_at = 0;
      updated_at = 0;
    })
    record_order identity_id (google_token_key purchase_token)
        (if is_empty item.latest_successful_order_id
          then purchase.latest_order_id
          else item.latest_successful_order_id)
        (map_google_v2_status purchase.subscription_state) start sold

  -- `VerifyStorePurchase`
  unfoldable pub verify_google_purchase : Text → PaymentStoreVerificationInput → Exec (Unit {0})
  verify_google_purchase identity_id input = do
    from (
        require (is_empty input.package_name || input.package_name == p.package_name)
          (sentinel Sentinel.product_rejected))
    verify_and_store identity_id input.purchase_token input.product_id true

  -- `ReconcileSubscription`
  unfoldable pub reconcile_google_subscription : PaymentSubscription → Exec (Unit {0})
  unfolding decrypt_token
  reconcile_google_subscription stored = do
    token ← decrypt_token stored.provider_data
    verify_and_store stored.identity_id token [] false
