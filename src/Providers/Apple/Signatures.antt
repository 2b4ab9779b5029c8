-- ===== src/Providers/Apple/Signatures.antt =====
-- The signatures of Apple: `verifyJWS`, `checkOCSP` and `serverAPIToken` of provider_apple.go.
use procyon_modules.Base.{
  ℕ, zero, suc, ◌+◌, ◌*◌, ◌/◌, ◌%◌, Bool, true, false, ◌&&◌, ◌||◌, not, Option, none, some, List,
  [], ◌∷◌, ◌++◌, ltb, eqb, if◌then◌else◌, length, take, drop,
}
use procyon_modules.Base.Int.{ℤ, is_positive}
use procyon_modules.Base.Text.{Text, bytes, ◌==◌, is_empty}
use procyon_modules.Base.Text.Numbers.{split}
use procyon_modules.Models.{Time}
use procyon_modules.Models.Errors.{Error, message}
use procyon_modules.Exec.{Result, ok, err, Exec, pure, raise, from, time_now, ◌>>=◌, ◌>>◌}
use procyon_modules.Exec.Results.{require}
use procyon_modules.Config.{contains_provider}
use procyon_modules.Providers.Calls.{wrapping, apple_milliseconds_time, unix_seconds}
use procyon_modules.Providers.Apple.{EcKey, Certificate, OcspResponse, Claim, ApplePaymentProvider}

-- The three elements of a list, if it has so many.
abbrev pub three : {A : Type 0} → Error → List A → Result (A × A × A)
three e (a ∷ b ∷ c ∷ []) = ok (a, b, c)
three e _ = err e

-- `new(big.Int).SetBytes`, after the bytes that make `n`.
unfoldable pub set_bytes : ℕ → List ℕ → ℕ
set_bytes n [] = n
set_bytes n (b ∷ bs) = set_bytes (n * 256 + b) bs

-- `x.FillBytes` of a slice of this length, for a number that fits in it.
unfoldable pub fill_bytes : ℕ → ℕ → List ℕ
fill_bytes zero x = []
fill_bytes (suc n) x = fill_bytes n (x / 256) ++ (x % 256) ∷ []

-- `hasCertificateExtension`
unfoldable pub has_certificate_extension : Certificate → Text → Bool
unfolding contains_provider
has_certificate_extension certificate expected = contains_provider certificate.extensions expected

abbrev pub leaf_purpose : Text
leaf_purpose = bytes "1.2.840.113635.100.6.11.1"

abbrev pub intermediate_purpose : Text
intermediate_purpose = bytes "1.2.840.113635.100.6.2.1"

-- Nanoseconds in a minute.
abbrev pub minute : ℕ
minute = 60000000000

-- The date of the payload, unless it is missing or more than five minutes ahead.
abbrev pub dated : Time → Option ℤ → Result Time
dated now none = err (message (bytes "Apple signed date is missing"))
dated now (some date) =
    if not (is_positive date)
    then err (message (bytes "Apple signed date is missing"))
    else if ltb (now + 5 * minute) (apple_milliseconds_time date)
    then err (message (bytes "Apple signed date is in the future"))
    else ok (apple_milliseconds_time date)

abbrev pub es256_key : Option EcKey → Result EcKey
es256_key none = err (message (bytes "invalid Apple signing key"))
es256_key (some k) =
    if eqb k.bit_size 256 then ok k else err (message (bytes "invalid Apple signing key"))

abbrev pub signature_of : Result Text → Result Text
signature_of (err e) = err (message (bytes "invalid Apple JWS signature"))
signature_of (ok signature) =
    if eqb (length signature) 64
    then ok signature
    else err (message (bytes "invalid Apple JWS signature"))

-- The status is good and current, with a minute of skew.
unfoldable pub is_good : Time → OcspResponse → Bool
is_good now status = not (
    not status.good
    || (ltb (now + minute) status.this_update
        || (not (eqb status.next_update 0) && ltb (status.next_update + minute) now)))

abbrev pub read_body : Text × Option Error → Result Text
read_body (body, none) = ok body
read_body (body, some e) = err e

abbrev pub first_server : List Text → Result Text
first_server [] = err (message (bytes "Apple certificate has no OCSP responder"))
first_server (server ∷ servers) = ok server

module _ (p : ApplePaymentProvider) where
  -- `checkOCSP`
  unfoldable pub check_ocsp : Certificate → Certificate → Exec (Unit {0})
  unfolding is_good
  check_ocsp certificate issuer = do
    server ← from (first_server certificate.ocsp_server)
    request ← from (p.library.create_ocsp_request certificate issuer)
    from (p.library.check_url server)
    response ← wrapping (bytes "Apple OCSP request") (
        p.library.post server (bytes "application/ocsp-request") (bytes "application/ocsp-response")
          request)
    from (
        require (eqb response.status_code 200)
          (message (bytes "Apple OCSP response: " ++ response.status)))
    body ← from (read_body (response.read_all 1048576))
    status ← from (p.library.parse_ocsp_response body certificate issuer)
    now ← time_now
    from
        (require (is_good now status) (message (bytes "Apple certificate OCSP status is not good")))

  -- The loop over the certificates of the header.
  unfoldable pub certificates : List Text → Result (List Certificate)
  certificates [] = ok []
  certificates (encoded ∷ x5c) = elim (p.library.decode_std encoded) [
    | err e ↦ err e
    | ok der ↦ elim (p.library.parse_certificate der) [
      | err e ↦ err e
      | ok certificate ↦ elim (certificates x5c) [
        | err e ↦ err e
        | ok more ↦ ok (certificate ∷ more)
      ]
    ]
  ]

  -- The time at which the chain is checked: that of the payload.
  unfoldable pub effective_time : Time → Result Text → Result Time
  unfolding apple_milliseconds_time
  effective_time now (err e) = err (message (bytes "invalid Apple JWS payload"))
  effective_time now (ok payload) = dated now (p.library.signed_date payload)

  abbrev pub check_online : Certificate → Certificate → Certificate → Exec (Unit {0})
  check_online leaf intermediate root =
      if p.online_checks
      then check_ocsp leaf intermediate >> check_ocsp intermediate root
      else pure tt

  -- The test of the signature, by the key of the leaf.
  unfoldable pub is_signed : EcKey → Text → Text → Text → Bool
  unfolding set_bytes
  is_signed key head body signature =
      p.library.ecdsa_verify key (p.library.sha256 (head ++ b'.' ∷ body))
        (set_bytes 0 (take 32 signature)) (set_bytes 0 (drop 32 signature))

  -- `verifyJWS`, where `decode` is json.Unmarshal into the type of the output.
  unfoldable pub verify_jws : {A : Type 0} → (Text → Result A) → Text → Exec A
  unfolding split has_certificate_extension certificates effective_time check_ocsp is_signed
  verify_jws decode token = do
    (head, body, tail) ← from (three (message (bytes "invalid JWS")) (split b'.' token))
    header_raw ← from (p.library.decode_raw_url head)
    header ← from (p.library.unmarshal_header header_raw)
    from (
        require (header.algorithm == bytes "ES256" && eqb (length header.x5c) 3)
          (message (bytes "unsupported Apple JWS header")))
    chain ← from (certificates header.x5c)
    (leaf, intermediate, root) ← from (three (message (bytes "unsupported Apple JWS header")) chain)
    from (
        require
          (has_certificate_extension leaf leaf_purpose
            && has_certificate_extension intermediate intermediate_purpose)
          (message (bytes "invalid Apple certificate purpose")))
    now ← time_now
    signed ← from (effective_time now (p.library.decode_raw_url body))
    from (p.library.verify_chain p.roots leaf intermediate signed)
    check_online leaf intermediate root
    key ← from (es256_key leaf.public_key)
    signature ← from (signature_of (p.library.decode_raw_url tail))
    from (
        require (is_signed key head body signature)
          (message (bytes "Apple JWS signature verification failed")))
    payload ← from (p.library.decode_raw_url body)
    from (decode payload)

  abbrev sign_with : Option EcKey → List ℕ → Exec (ℕ × ℕ)
  sign_with none digest = raise (message [])
  sign_with (some key) digest = p.library.ecdsa_sign key digest

  abbrev has_key : Option EcKey → Bool
  has_key none = false
  has_key (some key) = true

  -- The header and the claims of a token, encoded, with the dot between them.
  unfoldable pub signed_part : Time → Text
  unfolding unix_seconds
  signed_part now =
      p.library.encode_raw_url (
        p.library.marshal (
          (bytes "alg", Claim.text (bytes "ES256"))
          ∷ (bytes "kid", Claim.text p.key_id)
          ∷ (bytes "typ", Claim.text (bytes "JWT"))
          ∷ []))
      ++ b'.'
        ∷ p.library.encode_raw_url (
            p.library.marshal (
              (bytes "iss", Claim.text p.issuer_id)
              ∷ (bytes "iat", Claim.number (unix_seconds now))
              ∷ (bytes "exp", Claim.number (unix_seconds (now + 15 * minute)))
              ∷ (bytes "aud", Claim.text (bytes "appstoreconnect-v1"))
              ∷ (bytes "bid", Claim.text p.bundle_id)
              ∷ []))

  -- `serverAPIToken`
  unfoldable pub server_api_token : Time → Exec Text
  unfolding signed_part fill_bytes
  server_api_token now = do
    from (
        require (has_key p.private_key && (not (is_empty p.issuer_id) && not (is_empty p.key_id)))
          (message (bytes "Apple App Store Server API credentials are not configured")))
    (r, s) ← sign_with p.private_key (p.library.sha256 (signed_part now))
    pure (signed_part now ++ b'.' ∷ p.library.encode_raw_url (fill_bytes 32 r ++ fill_bytes 32 s))
