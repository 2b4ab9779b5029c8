-- ===== src/Providers/Apple/Verified.antt =====
-- What is known of a text that `verifyJWS` of provider_apple.go has accepted.
use procyon_modules.Base.{
  ◌+◌, ◌*◌, ◌≤◌, ◌≡◌, refl, sym, ap, ◌∙◌, subst, and_true, Bool, true, ◌&&◌, Option, none, some,
  List, [], ◌∷◌, eqb, arith, length,
}
use procyon_modules.Base.Int.{ℤ, is_positive}
use procyon_modules.Base.Text.{Text, bytes, ◌==◌, eq_iff}
use procyon_modules.Base.Text.Numbers.{split}
use procyon_modules.Models.{Time}
use procyon_modules.Models.Errors.{Error}
use procyon_modules.Exec.{Result, ok, err, World, Exec, ◌>>=◌, from}
use procyon_modules.Exec.Results.{same_value, require}
use procyon_modules.Exec.Rules.{at_bind, at_bind_now, at_from}
use procyon_modules.Service.Rules.{at_bind_from, at_bind_require}
use procyon_modules.Providers.Calls.{apple_milliseconds_time}
use procyon_modules.Providers.Apple.{AppleJwsHeader, EcKey, Certificate, ApplePaymentProvider}
use procyon_modules.Providers.Apple.Revocation.{AreCurrent, check_online-AreCurrent}
use procyon_modules.Providers.Apple.Signatures.{
  three, has_certificate_extension, leaf_purpose, intermediate_purpose, minute, certificates,
  is_signed, check_online, verify_jws, effective_time, es256_key, signature_of, dated,
}

three_of :
    {A : Type 0} (e : Error) (xs : List A) (a b c : A)
    → three e xs ≡ ok (a, b, c)
    → xs ≡ a ∷ b ∷ c ∷ []
three_of e [] a b c h = cc
three_of e (x ∷ []) a b c h = cc
three_of e (x ∷ y ∷ []) a b c h = cc
three_of e (x ∷ y ∷ z ∷ []) a b c h = cc
three_of e (x ∷ y ∷ z ∷ u ∷ xs) a b c h = cc

key_of : (o : Option EcKey) (k : EcKey) → es256_key o ≡ ok k → (o ≡ some k) × (k.bit_size ≡ 256)
key_of none k h = cc
key_of (some j) k h = ground (arith, h)

signature_bytes :
    (r : Result Text) (s : Text) → signature_of r ≡ ok s → (r ≡ ok s) × (length s ≡ 64)
signature_bytes (err e) s h = cc
signature_bytes (ok t) s h = ground (arith, h)

date_of :
    (now : Time) (o : Option ℤ) (t : Time)
    → dated now o ≡ ok t
    → (date : ℤ) × (o ≡ some date)
      × (is_positive date ≡ true)
      × (t ≡ apple_milliseconds_time date)
      × (t ≤ now + 5 * minute)
date_of now none t h = cc
date_of now (some date) t h = (date, refl, ground (arith, h), ground (arith, h), ground (arith, h))

module _ (p : ApplePaymentProvider) where
  -- The header holds these certificates, the first two of which are marked for their purposes.
  pub record HasChain (head : Text) (leaf intermediate root : Certificate) : Type 0 where
    pub header_raw : Text
    pub header : AppleJwsHeader
    pub decoded : p.library.decode_raw_url head ≡ ok header_raw
    pub read : p.library.unmarshal_header header_raw ≡ ok header
    pub algorithm : header.algorithm ≡ bytes "ES256"
    pub chain : certificates p header.x5c ≡ ok (leaf ∷ intermediate ∷ root ∷ [])
    pub leaf_marked : has_certificate_extension leaf leaf_purpose ≡ true
    pub intermediate_marked : has_certificate_extension intermediate intermediate_purpose ≡ true

  -- The payload bears a date that is not ahead of the clock by more than five minutes, and at which
  -- the chain is one to the configured roots.
  pub record IsTrusted (body payload : Text) (leaf intermediate : Certificate) (now : Time)
      : Type 0 where
    pub date : ℤ
    pub decoded : p.library.decode_raw_url body ≡ ok payload
    pub dated_at : p.library.signed_date payload ≡ some date
    pub positive : is_positive date ≡ true
    pub past : apple_milliseconds_time date ≤ now + 5 * minute
    pub trusted :
        p.library.verify_chain p.roots leaf intermediate (apple_milliseconds_time date) ≡ ok tt

  -- The signature of 64 bytes is one of the header and the payload by the certificate's key.
  pub record IsSignedBy (head body tail : Text) (leaf : Certificate) : Type 0 where
    pub key : EcKey
    pub found : leaf.public_key ≡ some key
    pub size : key.bit_size ≡ 256
    pub signature : Text
    pub decoded : p.library.decode_raw_url tail ≡ ok signature
    pub complete : length signature ≡ 64
    pub signed : is_signed p key head body signature ≡ true

  pub record IsVerified {A : Type 0} (decode : Text → Result A) (token : Text) (w : World) (a : A)
      (w' : World) : Type 0 where
    pub head : Text
    pub body : Text
    pub tail : Text
    pub parts : split b'.' token ≡ head ∷ body ∷ tail ∷ []
    pub leaf : Certificate
    pub intermediate : Certificate
    pub root : Certificate
    pub chain : HasChain head leaf intermediate root
    pub payload : Text
    pub trusted : IsTrusted body payload leaf intermediate w.clock
    pub online : AreCurrent p p.online_checks leaf intermediate root w w'
    pub signed : IsSignedBy head body tail leaf
    pub read : decode payload ≡ ok a

  effective :
      (now : Time) (r : Result Text) (t : Time)
      → effective_time p now r ≡ ok t
      → (payload : Text) × (r ≡ ok payload) × (dated now (p.library.signed_date payload) ≡ ok t)
  unfolding effective_time
  effective now (err e) t h = cc
  effective now (ok payload) t h = (payload, refl, h)

  -- The call has failed, or what it returns has been verified.
  unfoldable pub Verifies :
      {A : Type 0} → (Text → Result A) → Text → World → Result A × World → Type 0
  Verifies decode token w (err e, w') = Unit
  Verifies decode token w (ok a, w') = IsVerified decode token w a w'

  effective_time-IsTrusted :
      (now : Time) (body : Text) (leaf intermediate : Certificate) (time : Time)
      → effective_time p now (p.library.decode_raw_url body) ≡ ok time
      → (u : Unit {0}) → p.library.verify_chain p.roots leaf intermediate time ≡ ok u
      → (payload : Text) → p.library.decode_raw_url body ≡ ok payload
      → IsTrusted body payload leaf intermediate now
  effective_time-IsTrusted now body leaf intermediate time h u t payload d =
      let (payload', decoded, dated_as) = effective now _ time h in
      let (date, dated_at, positive, same, past) = date_of now _ time dated_as in
      let e : payload' ≡ payload = same_value _ payload' payload decoded d in
      record {
        date = date;
        decoded = d;
        dated_at = ap p.library.signed_date (sym e) ∙ dated_at;
        positive = positive;
        past = subst (λ t. t ≤ now + 5 * minute) same past;
        trusted = ap (p.library.verify_chain p.roots leaf intermediate) (sym same) ∙ t;
      }

  signed_by :
      (head body tail : Text) (leaf : Certificate) (key : EcKey) (signature : Text)
      → es256_key leaf.public_key ≡ ok key
      → signature_of (p.library.decode_raw_url tail) ≡ ok signature
      → is_signed p key head body signature ≡ true
      → IsSignedBy head body tail leaf
  signed_by head body tail leaf key signature k s signed =
      let (found, size) = key_of leaf.public_key key k in
      let (decoded, complete) = signature_bytes _ signature s in
      record {
        key = key;
        found = found;
        size = size;
        signature = signature;
        decoded = decoded;
        complete = complete;
        signed = signed;
      }

  chained_by :
      (head header_raw : Text) (header : AppleJwsHeader) (chain : List Certificate)
      (leaf intermediate root : Certificate) (e : Error)
      → p.library.decode_raw_url head ≡ ok header_raw
      → p.library.unmarshal_header header_raw ≡ ok header
      → (header.algorithm == bytes "ES256" && eqb (length header.x5c) 3) ≡ true
      → certificates p header.x5c ≡ ok chain
      → three e chain ≡ ok (leaf, intermediate, root)
      → (has_certificate_extension leaf leaf_purpose
          && has_certificate_extension intermediate intermediate_purpose)
        ≡ true
      → HasChain head leaf intermediate root
  chained_by head header_raw header chain leaf intermediate root e d r s c t m =
      let (es256, three_certificates) = and_true _ _ s in
      let (first, second) = and_true _ _ m in
      record {
        header_raw = header_raw;
        header = header;
        decoded = d;
        read = r;
        algorithm = (eq_iff header.algorithm (bytes "ES256")).0 es256;
        chain = c ∙ ap ok (three_of e chain leaf intermediate root t);
        leaf_marked = first;
        intermediate_marked = second;
      }

  module _ {A : Type 0} (decode : Text → Result A) (token : Text) (w : World) where
    abbrev P : Result A × World → Type 0
    P = Verifies decode token w

    failed : (e : Error) (w' : World) → P (err e, w')
    unfolding Verifies
    failed e w' = tt

    finish :
        (r : Result A) (w' : World)
        → ((a : A) → r ≡ ok a → IsVerified decode token w a w')
        → P (r, w')
    unfolding Verifies
    finish (err e) w' h = tt
    finish (ok a) w' h = h a refl

    reads :
        {B : Type 0} (r : Result B) (f : B → Exec A) (w' : World)
        → ((b : B) → r ≡ ok b → P (f b w'))
        → P ((from r >>= f) w')
    reads r f w' = at_bind_from P r f w' (λ e h. failed e w')

    requires :
        (b : Bool) (e : Error) (f : Unit {0} → Exec A) (w' : World)
        → (b ≡ true → P (f tt w'))
        → P ((from (require b e) >>= f) w')
    requires b e f w' = at_bind_require P b e f w' (failed e w')

    -- A text that `verifyJWS` accepts has three parts and an ES256 header with three certificates
    -- of Apple's purposes, whose chain to the configured roots holds at the date that the payload
    -- bears, which is at most five minutes ahead; where online checks are on, a responder has
    -- called the leaf and the intermediate good, with a status that is current up to a minute; the
    -- signature of 64 bytes is one of the header and the payload by the leaf's key; and what is
    -- returned is read from that payload.
    pub verify_jws-Verifies : P (verify_jws p decode token w)
    unfolding verify_jws
    verify_jws-Verifies = reads (three _ (split b'.' token)) _ w λ (head, body, tail) parted.
        reads (p.library.decode_raw_url head) _ w λ header_raw decoded.
          reads (p.library.unmarshal_header header_raw) _ w λ header read.
            requires _ _ _ w λ supported. reads (certificates p header.x5c) _ w λ chain chained.
              reads (three _ chain) _ w λ (leaf, intermediate, root) certified.
                requires _ _ _ w λ marked. at_bind_now P _ w (
                  reads (effective_time p w.clock (p.library.decode_raw_url body)) _ w
                    λ time dated_as.
                      reads (p.library.verify_chain p.roots leaf intermediate time) _ w λ u trusted.
                        at_bind P (check_online p leaf intermediate root) _ w
                          (λ e w' h. failed e w')
                          λ v w' online. reads (es256_key leaf.public_key) _ w' λ key keyed.
                            reads (signature_of (p.library.decode_raw_url tail)) _ w'
                              λ signature signed. requires _ _ _ w' λ valid.
                                reads (p.library.decode_raw_url body) _ w' λ payload decoded_as.
                                  at_from P (decode payload) w' (
                                    finish (decode payload) w' λ a output. record {
                                      head = head;
                                      body = body;
                                      tail = tail;
                                      parts = three_of _ _ head body tail parted;
                                      leaf = leaf;
                                      intermediate = intermediate;
                                      root = root;
                                      chain =
                                          chained_by head header_raw header chain leaf intermediate
                                            root _ decoded read supported chained certified marked;
                                      payload = payload;
                                      trusted =
                                          effective_time-IsTrusted w.clock body leaf intermediate
                                            time dated_as u trusted payload decoded_as;
                                      online =
                                          check_online-AreCurrent p leaf intermediate root w w'
                                            online;
                                      signed =
                                          signed_by head body tail leaf key signature keyed signed
                                            valid;
                                      read = output;
                                    }))
