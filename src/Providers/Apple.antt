-- ===== src/Providers/Apple.antt =====
-- payment-system/services/provider_apple.go: the provider, Apple's objects, and what the code takes
-- from the libraries of Go for certificates, signatures, encodings and HTTP, as parameters.
pub mod Signatures
pub mod Revocation
pub mod Verified
pub mod Transactions
pub mod Notifications
pub mod Purchases
pub mod Kept
pub mod Entitlement
pub mod Refunds
pub mod Tokens
use procyon_modules.Base.{ℕ, Bool, Option, List}
use procyon_modules.Base.Int.{ℤ}
use procyon_modules.Base.Text.{Text, bytes}
use procyon_modules.Models.{Time}
use procyon_modules.Models.Errors.{Error}
use procyon_modules.Exec.{Result, Exec}
use procyon_modules.Config.{Product}

pub record AppleTransactionPayload : Type 0 where
  pub transaction_id : Text
  pub original_transaction_id : Text
  pub product_id : Text
  pub bundle_id : Text
  pub app_account_token : Text
  pub purchase_date : ℤ
  pub expires_date : ℤ
  pub revocation_date : ℤ
  pub signed_date : ℤ
  pub environment : Text

pub record AppleRenewalPayload : Type 0 where
  pub original_transaction_id : Text
  pub product_id : Text
  pub auto_renew_product_id : Text
  pub auto_renew_status : ℤ
  pub expiration_intent : ℤ
  pub grace_period_expires_date : ℤ
  pub signed_date : ℤ
  pub environment : Text

-- The fields of the notification's `Data` stand beside its own.
pub record AppleNotificationPayload : Type 0 where
  pub notification_type : Text
  pub subtype : Text
  pub notification_uuid : Text
  pub signed_date : ℤ
  pub signed_transaction_info : Text
  pub signed_renewal_info : Text
  pub bundle_id : Text
  pub environment : Text
  pub app_apple_id : ℤ

pub record LastTransaction : Type 0 where
  pub original_transaction_id : Text
  pub status : ℤ
  pub signed_transaction_info : Text
  pub signed_renewal_info : Text

-- `groups` are the `LastTransactions` of each group of the `Data`.
pub record AppleStatusResponse : Type 0 where
  pub environment : Text
  pub bundle_id : Text
  pub app_apple_id : ℤ
  pub groups : List (List LastTransaction)

pub record AppleJwsHeader : Type 0 where
  pub algorithm : Text
  pub x5c : List Text

-- A key for ECDSA, with the size of its curve in bits.
pub record EcKey : Type 0 where
  pub key : Text
  pub bit_size : ℕ

-- `x509.Certificate`, as far as it is read: the identifiers of its extensions in dotted form, and
-- its public key if that is one for ECDSA.
pub record Certificate : Type 0 where
  pub raw : Text
  pub extensions : List Text
  pub ocsp_server : List Text
  pub public_key : Option EcKey

-- `read_all n` is what io.ReadAll yields of the first n bytes of the body, and its error.
pub record HttpResponse : Type 0 where
  pub status_code : ℕ
  pub status : Text
  pub read_all : ℕ → Text × Option Error

-- `ocsp.Response`: the status is ocsp.Good or not.
pub record OcspResponse : Type 0 where
  pub good : Bool
  pub this_update : Time
  pub next_update : Time

-- A value of `map[string]any`.
pub data Claim : Type 0 where
  text : Text → Claim
  number : ℤ → Claim

pub record AppleConfig : Type 0 where
  pub bundle_id : Text
  pub app_apple_id : ℤ
  pub environment : Text
  pub root_ca : Text
  pub online_checks : Option Bool
  pub issuer_id : Text
  pub key_id : Text
  pub private_key : Text

-- The libraries. `signed_date` is the field of that name where json.Unmarshal succeeds; the pool of
-- the roots is the text that it is made from; `parse_pkcs8_private_key` yields a key if it is one
-- for ECDSA; `beside` is filepath.Join after filepath.Dir.
pub record AppleLibrary : Type 0 where
  pub decode_raw_url : Text → Result Text
  pub encode_raw_url : Text → Text
  pub decode_std : Text → Result Text
  pub unmarshal_header : Text → Result AppleJwsHeader
  pub unmarshal_envelope : Text → Result Text
  pub unmarshal_notification : Text → Result AppleNotificationPayload
  pub unmarshal_transaction : Text → Result AppleTransactionPayload
  pub unmarshal_renewal : Text → Result AppleRenewalPayload
  pub unmarshal_status : Text → Result AppleStatusResponse
  pub unmarshal_config : Text → Result AppleConfig
  pub signed_date : Text → Option ℤ
  pub marshal : List (Text × Claim) → Text
  pub parse_certificate : Text → Result Certificate
  pub append_certs_from_pem : Text → Bool
  pub verify_chain : Text → Certificate → Certificate → Time → Result (Unit {0})
  pub sha256 : Text → List ℕ
  pub ecdsa_verify : EcKey → List ℕ → ℕ → ℕ → Bool
  pub ecdsa_sign : EcKey → List ℕ → Exec (ℕ × ℕ)
  pub pem_decode : Text → Option Text
  pub parse_pkcs8_private_key : Text → Result (Option EcKey)
  pub parse_ec_private_key : Text → Result EcKey
  pub create_ocsp_request : Certificate → Certificate → Result Text
  pub parse_ocsp_response : Text → Certificate → Certificate → Result OcspResponse
  pub check_url : Text → Result (Unit {0})
  pub post : Text → Text → Text → Text → Exec HttpResponse
  pub get_authorized : Text → Text → Exec HttpResponse
  pub path_escape : Text → Text
  pub beside : Text → Text → Text

pub record ApplePaymentProvider : Type 0 where
  pub library : AppleLibrary
  pub bundle_id : Text
  pub app_apple_id : ℤ
  pub environment : Text
  pub roots : Text
  pub products : List Product
  pub webhook_lease : ℤ
  pub online_checks : Bool
  pub issuer_id : Text
  pub key_id : Text
  pub private_key : Option EcKey
  pub server_api_url : Text

abbrev pub apple : Text
apple = bytes "apple"
