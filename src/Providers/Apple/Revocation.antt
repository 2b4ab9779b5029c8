-- ===== src/Providers/Apple/Revocation.antt =====
-- What is known of a certificate that `checkOCSP` of provider_apple.go has passed.
use procyon_modules.Base.{
  ◌+◌, ◌≤◌, ◌≡◌, sym, ap, ◌∙◌, subst, Bool, true, false, ◌⊎◌, Option, none, some, arith,
  if◌then◌else◌,
}
use procyon_modules.Base.Text.{Text, bytes}
use procyon_modules.Models.{Time}
use procyon_modules.Models.Errors.{Error}
use procyon_modules.Exec.{Result, ok, err, World, Exec, pure, from, time_now, ◌>>◌}
use procyon_modules.Exec.Results.{wrap}
use procyon_modules.Exec.Rules.{
  require_returns, time_now_returns, bind_returns, from_bind_returns, require_bind_returns,
}
use procyon_modules.Providers.Calls.{wrapping}
use procyon_modules.Providers.Apple.{Certificate, HttpResponse, OcspResponse, ApplePaymentProvider}
use procyon_modules.Providers.Apple.Signatures.{
  minute, is_good, read_body, first_server, check_ocsp, check_online,
}

-- The responder calls the certificate good, from at most a minute after the time and, where it says
-- when the next status comes, to at most a minute before it.
pub record IsCurrent (now : Time) (status : OcspResponse) : Type 0 where
  pub good : status.good ≡ true
  pub begun : status.this_update ≤ now + minute
  pub lasting : (status.next_update ≡ 0) ⊎ (now ≤ status.next_update + minute)

is_good-IsCurrent :
    (now : Time) (status : OcspResponse) → is_good now status ≡ true → IsCurrent now status
unfolding is_good
is_good-IsCurrent now status h = record {
  good = ground (arith, h);
  begun = ground (arith, h);
  lasting = ground (arith, h);
}

read_whole : (r : Text × Option Error) (body : Text) → read_body r ≡ ok body → r ≡ (body, none)
read_whole (text, none) body h = cc
read_whole (text, some e) body h = cc

wrapped_returns :
    {A : Type 0} (text : Text) (call : Exec A) (w : World) (a : A) (w' : World)
    → wrapping text call w ≡ (ok a, w')
    → call w ≡ (ok a, w')
wrapped_returns {A} text call w a w' h = go (call w) h
  where
    go :
        (r : Result A × World)
        → ◌≡◌ {A = Result A × World} (wrap text r.0, r.1) (ok a, w')
        → r ≡ (ok a, w')
    go (ok b, w1) q = q
    go (err e, w1) q = cc

module _ (p : ApplePaymentProvider) where
  abbrev ask : Text → Text → Exec HttpResponse
  ask server request =
      p.library.post server (bytes "application/ocsp-request") (bytes "application/ocsp-response")
        request

  -- The first responder of the certificate has answered, in the world before and after the call,
  -- that it is good.
  pub record HasStatus (certificate issuer : Certificate) (w w' : World) : Type 0 where
    pub server : Text
    pub named : first_server certificate.ocsp_server ≡ ok server
    pub request : Text
    pub asked : p.library.create_ocsp_request certificate issuer ≡ ok request
    pub response : HttpResponse
    pub answered : ask server request w ≡ (ok response, w')
    pub success : response.status_code ≡ 200
    pub body : Text
    pub whole : response.read_all 1048576 ≡ (body, none)
    pub status : OcspResponse
    pub parsed : p.library.parse_ocsp_response body certificate issuer ≡ ok status
    pub current : IsCurrent w'.clock status

  pub check_ocsp-HasStatus :
      (certificate issuer : Certificate) (w w' : World)
      → check_ocsp p certificate issuer w ≡ (ok tt, w')
      → HasStatus certificate issuer w w'
  unfolding check_ocsp from
  check_ocsp-HasStatus certificate issuer w w' h =
      let (server, named, h1) = from_bind_returns _ _ w tt w' h in
      let (request, asked, h2) = from_bind_returns _ _ w tt w' h1 in
      let (u, checked, h3) = from_bind_returns _ _ w tt w' h2 in
      let (response, w1, called, h4) = bind_returns _ _ w tt w' h3 in
      let (success, h5) = require_bind_returns _ _ _ w1 tt w' h4 in
      let (body, whole, h6) = from_bind_returns _ _ w1 tt w' h5 in
      let (status, parsed, h7) = from_bind_returns _ _ w1 tt w' h6 in
      let (now, w2, read, h8) = bind_returns time_now _ w1 tt w' h7 in
      let (clock, same) = time_now_returns w1 w2 now read in
      let (good, ended) = require_returns _ _ w2 w' h8 in
      record {
        server = server;
        named = named;
        request = request;
        asked = asked;
        response = response;
        answered =
            wrapped_returns (bytes "Apple OCSP request") (ask server request) w response w1 called
            ∙ ap (λ v. (ok response, v)) (same ∙ ended);
        success = ground (arith, success);
        body = body;
        whole = read_whole _ body whole;
        status = status;
        parsed = parsed;
        current =
            subst (λ t. IsCurrent t status) (sym clock ∙ ap (λ v. v.clock) (same ∙ ended))
              (is_good-IsCurrent now status good);
      }

  -- Where online checks are on, the leaf and the intermediate have been called good; and else
  -- nothing has happened.
  abbrev pub AreCurrent : Bool → Certificate → Certificate → Certificate → World → World → Type 0
  AreCurrent true leaf intermediate root w w' =
      (w1 : World) × HasStatus leaf intermediate w w1 × HasStatus intermediate root w1 w'
  AreCurrent false leaf intermediate root w w' = w ≡ w'

  pub check_online-AreCurrent :
      (leaf intermediate root : Certificate) (w w' : World)
      → check_online p leaf intermediate root w ≡ (ok tt, w')
      → AreCurrent p.online_checks leaf intermediate root w w'
  unfolding pure
  check_online-AreCurrent leaf intermediate root w w' h = go p.online_checks h
    where
      go :
          (b : Bool)
          → (if b
                then check_ocsp p leaf intermediate >> check_ocsp p intermediate root
                else pure tt)
              w
            ≡ (ok tt, w')
          → AreCurrent b leaf intermediate root w w'
      go false q = ap (λ r. r.1) q
      go true q =
          let (u, w1, first, second) = bind_returns (check_ocsp p leaf intermediate) _ w tt w' q in
          (
            w1,
            check_ocsp-HasStatus leaf intermediate w w1 first,
            check_ocsp-HasStatus intermediate root w1 w' second,
          )
