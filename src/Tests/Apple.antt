-- ===== src/Tests/Apple.antt =====
-- Signed payloads of Apple on concrete values, with a library of which every text is its own
-- encoding.
use procyon_modules.Base.{Bool, ◌≡◌, refl, true, false, none, some, [], ◌∷◌, ◌++◌, arith, eqb}
use procyon_modules.Base.Int.{pos}
use procyon_modules.Base.Text.{normalized, trim_space, Text, bytes, ◌==◌, to_upper}
use procyon_modules.Base.Text.Numbers.{split}
use procyon_modules.Models.{SubscriptionStatus}
use procyon_modules.Models.Inputs.{PaymentStoreVerificationInput}
use procyon_modules.Models.Errors.{message}
use procyon_modules.Exec.{ok, err, World, pure, raise, from, time_now, ◌>>=◌}
use procyon_modules.Config.{contains_provider}
use procyon_modules.Providers.Calls.{apple_milliseconds_time}
use procyon_modules.Providers.Apple.{
  AppleTransactionPayload, AppleRenewalPayload, AppleJwsHeader, EcKey, Certificate, AppleLibrary,
  ApplePaymentProvider,
}
use procyon_modules.Providers.Apple.Signatures.{
  leaf_purpose, intermediate_purpose, verify_jws, certificates, effective_time,
  has_certificate_extension, is_signed, set_bytes,
}
use procyon_modules.Providers.Apple.Verified.{Verifies, verify_jws-Verifies}
use procyon_modules.Providers.Apple.Transactions.{
  verify_apple_purchase, apple_subscription_status, with_renewal, renewed_status,
}
use procyon_modules.Providers.Apple.Purchases.{Accepts, verify_apple_purchase-Accepts}
use procyon_modules.Providers.Apple.Refunds.{IsReported, outcome, keep_transaction-IsReported}
use procyon_modules.Models.{PaymentSubscription}
use procyon_modules.Exec.{statement, raise}
use procyon_modules.Exec
use procyon_modules.Config.{product}
use procyon_modules.Store.Table.{find}
use procyon_modules.Store.Keyed.{is_key}
use procyon_modules.Store.Payments as Payments
use procyon_modules.Store.Subscriptions as Subscriptions
use procyon_modules.Store.Payments.{upsert_payment, find_payment, write_payment, create_payment}
use procyon_modules.Store.Payments.Upsert.{HasPayments}
use procyon_modules.Store.Subscriptions.{
  upsert_subscription, create_subscription, find_subscription, write_subscription,
}
use procyon_modules.Store.Subscriptions.Upsert.{subscription_of, HasSubscriptions}
use procyon_modules.Providers.Apple.{apple}
use procyon_modules.Providers.Apple.Transactions.{
  keep_transaction, record_transaction, apple_subscription,
}
use procyon_modules.Providers.Apple.Entitlement.{Entitles, keep_transaction-Entitles}
use procyon_modules.Tests.{new_world}
use procyon_modules.Tests.Config.{gold}

abbrev key : EcKey
key = record { key = bytes "key"; bit_size = 256 }

-- Every certificate is marked for both purposes.
abbrev certificate : Text → Certificate
certificate raw = record {
  raw = raw;
  extensions = leaf_purpose ∷ intermediate_purpose ∷ [];
  ocsp_server = [];
  public_key = some key;
}

abbrev transaction : AppleTransactionPayload
transaction = record {
  transaction_id = bytes "1";
  original_transaction_id = bytes "1";
  product_id = bytes "price_1";
  bundle_id = bytes "app";
  app_account_token = bytes "ann";
  purchase_date = pos 1700000000000;
  expires_date = pos 1800000000000;
  revocation_date = pos 0;
  signed_date = pos 1700000000000;
  environment = bytes "Sandbox";
}

abbrev header : AppleJwsHeader
header = record {
  algorithm = bytes "ES256";
  x5c = bytes "leaf" ∷ bytes "intermediate" ∷ bytes "root" ∷ [];
}

-- Every header and every payload is the one above; a signature is valid if its halves are numbers
-- that are equal.
abbrev library : AppleLibrary
library = record {
  decode_raw_url = λ text. ok text;
  encode_raw_url = λ text. text;
  decode_std = λ text. ok text;
  unmarshal_header = λ raw. ok header;
  unmarshal_envelope = λ raw. ok raw;
  unmarshal_notification = λ raw. err (message []);
  unmarshal_transaction = λ raw. ok transaction;
  unmarshal_renewal = λ raw. err (message []);
  unmarshal_status = λ raw. err (message []);
  unmarshal_config = λ raw. err (message []);
  signed_date = λ raw. some transaction.signed_date;
  marshal = λ claims. [];
  parse_certificate = λ raw. ok (certificate raw);
  append_certs_from_pem = λ raw. true;
  verify_chain = λ roots leaf intermediate at. ok tt;
  sha256 = λ text. text;
  ecdsa_verify = λ k digest r s. eqb r s;
  ecdsa_sign = λ k digest. pure (0, 0);
  pem_decode = λ raw. none;
  parse_pkcs8_private_key = λ raw. err (message []);
  parse_ec_private_key = λ raw. err (message []);
  create_ocsp_request = λ leaf issuer. err (message []);
  parse_ocsp_response = λ raw leaf issuer. err (message []);
  check_url = λ url. ok tt;
  post = λ url kind accepted body. raise (message []);
  get_authorized = λ url value. raise (message []);
  path_escape = λ text. text;
  beside = λ file name. name;
}

abbrev provider : ApplePaymentProvider
provider = record {
  library = library;
  bundle_id = bytes "app";
  app_apple_id = pos 1;
  environment = bytes "Sandbox";
  roots = [];
  products = record gold { provider = bytes "apple"; kind = bytes "subscription" } ∷ [];
  webhook_lease = pos 50;
  online_checks = false;
  issuer_id = [];
  key_id = [];
  private_key = none;
  server_api_url = [];
}

abbrev half : Text
half = bytes "0123456789abcdef0123456789abcdef"

abbrev token : Text
token = bytes "head.body." ++ half ++ half

-- The end of 2023, in nanoseconds since Go's zero time.
abbrev now : World
now = new_world 63839664000000000000

verify_jws-Verifies_example :
    Verifies provider library.unmarshal_transaction token now
      (verify_jws provider library.unmarshal_transaction token now)
verify_jws-Verifies_example = verify_jws-Verifies provider library.unmarshal_transaction token now

abbrev input : Text → PaymentStoreVerificationInput
input payload = record {
  package_name = [];
  product_id = [];
  purchase_token = [];
  signed_payload = payload;
}

verify_apple_purchase-Accepts_example :
    Accepts provider
      (bytes "ann")
      (input token)
      now
      (verify_apple_purchase provider (bytes "ann") (input token) now)
verify_apple_purchase-Accepts_example =
    verify_apple_purchase-Accepts provider (bytes "ann") (input token) now refl

-- A refund that comes with an expiration intent.
abbrev renewal : AppleRenewalPayload
renewal = record {
  original_transaction_id = bytes "1";
  product_id = bytes "price_1";
  auto_renew_product_id = bytes "price_1";
  auto_renew_status = pos 0;
  expiration_intent = pos 1;
  grace_period_expires_date = pos 0;
  signed_date = pos 1700000000000;
  environment = bytes "Sandbox";
}

is_refund : (to_upper (bytes "refund") == bytes "REFUND") ≡ true
unfolding to_upper ◌==◌
is_refund = refl

verified_test : (verify_jws provider library.unmarshal_transaction token now).0 ≡ ok transaction
unfolding verify_jws split certificates effective_time has_certificate_extension is_signed ◌==◌
    time_now from pure ◌>>=◌ apple_milliseconds_time contains_provider set_bytes
verified_test = refl

rejected_test :
    (verify_jws provider library.unmarshal_transaction
      (bytes "head.body." ++ half ++ bytes "another half of thirty-two bytes")
      now).0
    ≡ err (message (bytes "Apple JWS signature verification failed"))
unfolding verify_jws split certificates effective_time has_certificate_extension is_signed ◌==◌
    time_now from pure raise ◌>>=◌ apple_milliseconds_time contains_provider set_bytes
rejected_test = refl

now-HasSubscriptions : HasSubscriptions now.db
now-HasSubscriptions = record { index = tt; ids = tt; below = tt }

now-HasPayments : HasPayments now.db
now-HasPayments = record { index = tt; ids = tt; below = tt }

abbrev kind : Text
kind = bytes "PURCHASE_VERIFIED"

abbrev kept : World
kept = (keep_transaction provider transaction kind none now).1

transaction_kept : keep_transaction provider transaction kind none now ≡ (ok tt, kept)
unfolding keep_transaction time_now ◌>>=◌ from pure raise with_renewal apple_subscription_status
    to_upper ◌==◌ product find is_key normalized trim_space upsert_subscription create_subscription
    find_subscription write_subscription statement record_transaction upsert_payment
    Exec.transaction find_payment write_payment create_payment apple_subscription
transaction_kept = refl

keep_transaction-Entitles_example :
    (status : SubscriptionStatus) × (cancel : Bool) × (r : PaymentSubscription) × (with_renewal
        now.clock transaction none
        (apple_subscription_status kind transaction now.clock)
      ≡ ok (status, cancel))
    × (subscription_of apple transaction.original_transaction_id kept.db ≡ some r)
    × Entitles provider transaction status r
unfolding trim_space
keep_transaction-Entitles_example =
    keep_transaction-Entitles provider transaction kind none now kept now-HasSubscriptions
      now-HasPayments refl transaction_kept

abbrev refund : Text
refund = bytes "refund"

-- The first purchase is refunded while an expiration intent is reported.
abbrev refunded : World
refunded = (keep_transaction provider transaction refund (some renewal) kept).1

refund_kept : keep_transaction provider transaction refund (some renewal) kept ≡ (ok tt, refunded)
unfolding keep_transaction time_now ◌>>=◌ from pure raise with_renewal renewed_status
    apple_subscription_status to_upper ◌==◌ product find is_key normalized trim_space
    upsert_subscription create_subscription find_subscription write_subscription statement
    record_transaction upsert_payment Exec.transaction find_payment write_payment create_payment
    apple_subscription Subscriptions.created Subscriptions.conflicts
    Subscriptions.update_subscription Payments.created Payments.dated
refund_kept = refl

kept-HasSubscriptions : HasSubscriptions kept.db
unfolding keep_transaction time_now ◌>>=◌ from pure raise with_renewal apple_subscription_status
    to_upper ◌==◌ product find is_key normalized trim_space upsert_subscription create_subscription
    find_subscription write_subscription statement record_transaction upsert_payment
    Exec.transaction find_payment write_payment create_payment apple_subscription
    Subscriptions.created Payments.created Payments.dated
kept-HasSubscriptions = record { index = (refl, tt); ids = (refl, tt); below = (omega arith, tt) }

kept-HasPayments : HasPayments kept.db
unfolding keep_transaction time_now ◌>>=◌ from pure raise with_renewal apple_subscription_status
    to_upper ◌==◌ product find is_key normalized trim_space upsert_subscription create_subscription
    find_subscription write_subscription statement record_transaction upsert_payment
    Exec.transaction find_payment write_payment create_payment apple_subscription
    Subscriptions.created Payments.created Payments.dated
kept-HasPayments = record { index = (refl, tt); ids = (refl, tt); below = (omega arith, tt) }

keep_transaction-IsReported_example :
    IsReported provider transaction
      (outcome kept.clock (some renewal)).0
      (outcome kept.clock (some renewal)).1
      kept
      refunded
unfolding trim_space
keep_transaction-IsReported_example =
    keep_transaction-IsReported provider transaction refund (some renewal) kept refunded
      kept-HasSubscriptions kept-HasPayments is_refund refl refl refund_kept
