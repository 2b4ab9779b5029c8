-- ===== src/Tests/Google.antt =====
-- An encrypted token of Google on a concrete cipher.
use procyon_modules.Base.{ℕ, ◌≡◌, refl, some, List, ◌∷◌, length}
use procyon_modules.Base.Text.{bytes}
use procyon_modules.Exec.{ok, World, random_bytes, pure, from, ◌>>=◌}
use procyon_modules.Providers.Google.{Gcm, GooglePaymentProvider}
use procyon_modules.Providers.Google.Purchases.{encrypt_token, decrypt_token}
use procyon_modules.Providers.Google.Tokens.{HasLaws, decrypt-encrypt}
use procyon_modules.Tests.{new_world}
use procyon_modules.Tests.Providers.{google}

-- A cipher that hides nothing, with nonces of one byte.
abbrev cipher : Gcm
cipher = record {
  nonce_size = 1;
  seal = λ nonce text additional. text;
  open_sealed = λ nonce text additional. ok text;
}

abbrev provider : GooglePaymentProvider
provider = record google { gcm = ok cipher }

provider-HasLaws : HasLaws provider cipher
provider-HasLaws = record {
  cipher = refl;
  opens = λ nonce text additional h. refl;
  decodes = λ text. refl;
}

one_byte : (n : ℕ) (raw : List ℕ) → (new_world 100).entropy n 1 ≡ some raw → length raw ≡ 1
one_byte n raw h = cc

abbrev later : World
later = new_world 200

token_encrypted :
    encrypt_token provider (bytes "token") (new_world 100)
    ≡ (ok (0 ∷ bytes "token"), (encrypt_token provider (bytes "token") (new_world 100)).1)
unfolding encrypt_token random_bytes pure from ◌>>=◌
token_encrypted = refl

decrypt-encrypt_example :
    decrypt_token provider (0 ∷ bytes "token") later ≡ (ok (bytes "token"), later)
decrypt-encrypt_example =
    decrypt-encrypt provider cipher provider-HasLaws (bytes "token") (0 ∷ bytes "token")
      (new_world 100) (encrypt_token provider (bytes "token") (new_world 100)).1 later one_byte
      token_encrypted
