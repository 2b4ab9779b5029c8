-- ===== src/Providers/Google/Tokens.antt =====
-- The encrypted purchase tokens of provider_google.go.
use procyon_modules.Base.{
  ℕ, ◌≡◌, sym, ap, subst, true, ◌∙◌, Option, none, some, List, ◌++◌, arith, length, take, drop, leb,
  length-append, take-append, drop-append,
}
use procyon_modules.Base.Text.{Text}
use procyon_modules.Models.Errors.{Error, message}
use procyon_modules.Exec.{Result, ok, err, World, next_request, from, random_bytes, pure, ◌>>=◌}
use procyon_modules.Exec.Results.{same_value, require}
use procyon_modules.Exec.Rules.{bind_returns, from_bind_returns}
use procyon_modules.Service.Rules.{at_bind_from}
use procyon_modules.Providers.Google.{Gcm, GooglePaymentProvider}
use procyon_modules.Providers.Google.Purchases.{encrypt_token, decrypt_token}

drawn :
    (size : ℕ) (w : World) (raw : List ℕ) (w' : World)
    → random_bytes size w ≡ (ok raw, w')
    → w.entropy w.requests size ≡ some raw
unfolding random_bytes
drawn size w raw w' = go (w.entropy w.requests size)
  where
    drawn_as : Result (List ℕ) × World
    drawn_as = (ok raw, w')

    go :
        (o : Option (List ℕ))
        → ◌≡◌ {A = Result (List ℕ) × World}
            (elim o [
              | some r ↦ (ok r, next_request w)
              | none ↦ (err (message List.[]), next_request w)
            ])
            drawn_as
        → o ≡ some raw
    go none h = cc
    go (some r) h = cc

pure_value : {A : Type 0} (a b : A) (w w' : World) → pure a w ≡ (ok b, w') → a ≡ b
unfolding pure
pure_value a b w w' h = cc

-- The laws of the libraries: what has been sealed under a nonce of the right size opens, with the
-- same nonce and associated data, to the same text, and base64 is decoded to what was encoded.
pub record HasLaws (p : GooglePaymentProvider) (gcm : Gcm) : Type 0 where
  pub cipher : p.gcm ≡ ok gcm
  pub opens :
      (nonce text additional : Text)
      → length nonce ≡ gcm.nonce_size
      → gcm.open_sealed nonce (gcm.seal nonce text additional) additional ≡ ok text
  pub decodes : (text : Text) → p.decode_raw (p.encode_raw text) ≡ ok text

module _ (p : GooglePaymentProvider) (gcm : Gcm) (laws : HasLaws p gcm) where
  encrypted_as :
      (token encoded : Text) (w w1 : World)
      → ((n : ℕ) (raw : List ℕ)
          → w.entropy n gcm.nonce_size ≡ some raw
          → length raw ≡ gcm.nonce_size)
      → encrypt_token p token w ≡ (ok encoded, w1)
      → (nonce : Text) × (length nonce ≡ gcm.nonce_size)
        × (encoded ≡ p.encode_raw (nonce ++ gcm.seal nonce token p.package_name))
  unfolding encrypt_token
  encrypted_as token encoded w w1 sized h =
      let (g, found, rest) = from_bind_returns _ _ w encoded w1 h in
      let (nonce, w2, random, last) = bind_returns _ _ w encoded w1 rest in
      let same : g ≡ gcm = same_value p.gcm g gcm found laws.cipher in
      (
        nonce,
        sized w.requests nonce (
            subst (λ c. w.entropy w.requests c.nonce_size ≡ some nonce) same
              (drawn g.nonce_size w nonce w2 random)),
        sym (pure_value _ encoded w2 w1 last)
            ∙ ap (λ c. p.encode_raw (nonce ++ c.seal nonce token p.package_name)) same,
      )

  opened :
      (nonce token : Text) (e : Error) (w : World)
      → length nonce ≡ gcm.nonce_size
      → let whole = nonce ++ gcm.seal nonce token p.package_name in
        (from (require (leb gcm.nonce_size (length whole)) e) >>= λ u.
        from
          (gcm.open_sealed (take gcm.nonce_size whole) (drop gcm.nonce_size whole) p.package_name))
          w
        ≡ (ok token, w)
  unfolding ◌>>=◌
  opened nonce token e w sized =
      subst
        (λ b.
          (from (require b e) >>= λ u.
          from (
            gcm.open_sealed (take gcm.nonce_size whole) (drop gcm.nonce_size whole) p.package_name))
            w
          ≡ (ok token, w))
        (sym long)
        (ap (λ r. (r, w))
          (ap (λ n. gcm.open_sealed n (drop gcm.nonce_size whole) p.package_name)
              (take-append gcm.nonce_size nonce (gcm.seal nonce token p.package_name) sized)
            ∙ ap (λ c. gcm.open_sealed nonce c p.package_name)
                (drop-append gcm.nonce_size nonce (gcm.seal nonce token p.package_name) sized)
            ∙ laws.opens nonce token p.package_name sized))
    where
      whole : Text
      whole = nonce ++ gcm.seal nonce token p.package_name

      long : leb gcm.nonce_size (length whole) ≡ true
      long = ground (arith, length-append nonce (gcm.seal nonce token p.package_name), sized)

  decrypted :
      (nonce token : Text) (w : World)
      → length nonce ≡ gcm.nonce_size
      → decrypt_token p (p.encode_raw (nonce ++ gcm.seal nonce token p.package_name)) w
        ≡ (ok token, w)
  unfolding decrypt_token
  decrypted nonce token w sized =
      at_bind_from P _ _ w (λ e h. absurd (no_error e h))
        λ raw decoded.
          at_bind_from P p.gcm _ w (λ e h. absurd (no_gcm e h))
            λ g found.
              rw
                (
                  same_value _ raw whole decoded (laws.decodes whole),
                  same_value p.gcm g gcm found laws.cipher,
                )
                (opened nonce token _ w sized)
    where
      whole : Text
      whole = nonce ++ gcm.seal nonce token p.package_name

      P : Result Text × World → Type 0
      P res = res ≡ (ok token, w)

      no_error : (e : Error) → p.decode_raw (p.encode_raw whole) ≡ err e → ⊥
      no_error e h = cc (laws.decodes whole)

      no_gcm : (e : Error) → p.gcm ≡ err e → ⊥
      no_gcm e h = cc (laws.cipher)

  -- With the laws of the cipher and of base64, and a random source that yields nonces of the
  -- cipher's size, a purchase token that `encryptToken` has encrypted is decrypted to itself, at any
  -- later time.
  pub decrypt-encrypt :
      (token encoded : Text) (w w1 w2 : World)
      → ((n : ℕ) (raw : List ℕ)
          → w.entropy n gcm.nonce_size ≡ some raw
          → length raw ≡ gcm.nonce_size)
      → encrypt_token p token w ≡ (ok encoded, w1)
      → decrypt_token p encoded w2 ≡ (ok token, w2)
  decrypt-encrypt token encoded w w1 w2 sized h =
      let (nonce, size, same) = encrypted_as token encoded w w1 sized h in
      ap (λ e. decrypt_token p e w2) same ∙ decrypted nonce token w2 size
