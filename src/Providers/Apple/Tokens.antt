-- ===== src/Providers/Apple/Tokens.antt =====
-- The two numbers of a signature of provider_apple.go, as 64 bytes and back.
use procyon_modules.Base.{
  ℕ, zero, suc, ◌+◌, ◌*◌, ◌/◌, ◌%◌, ◌^◌, ◌<◌, ◌≡◌, refl, ap, ◌∙◌, List, [], ◌∷◌, ◌++◌, arith,
  length, take, drop, length-append, take-append, drop-append,
}
use procyon_modules.Providers.Apple.Signatures.{set_bytes, fill_bytes}

set_bytes-append : (n : ℕ) (xs ys : List ℕ) → set_bytes n (xs ++ ys) ≡ set_bytes (set_bytes n xs) ys
unfolding set_bytes
set_bytes-append n [] ys = refl
set_bytes-append n (x ∷ xs) ys = set_bytes-append (n * 256 + x) xs ys

length-fill_bytes : (n x : ℕ) → length (fill_bytes n x) ≡ n
unfolding fill_bytes
length-fill_bytes zero x = refl
length-fill_bytes (suc n) x = omega (
  arith,
  length-append {0} (fill_bytes n (x / 256)) (x % 256 ∷ []),
  length-fill_bytes n (x / 256),
)

quotient_small : (n x : ℕ) → x < 256 ^ suc n → x / 256 < 256 ^ n
quotient_small n x h = omega arith

set_bytes-fill_bytes : (n x : ℕ) → x < 256 ^ n → set_bytes 0 (fill_bytes n x) ≡ x
unfolding fill_bytes set_bytes
set_bytes-fill_bytes zero x h = omega arith
set_bytes-fill_bytes (suc n) x h =
    set_bytes-append 0 (fill_bytes n (x / 256)) (x % 256 ∷ [])
    ∙ ap (λ k. k * 256 + x % 256) (set_bytes-fill_bytes n (x / 256) (quotient_small n x h))
    ∙ omega arith

-- Two numbers of less than 256 bits, as `serverAPIToken` writes them, make 64 bytes, and are what
-- `verifyJWS` reads from their two halves.
pub signature_read :
    (r s : ℕ)
    → r < 256 ^ 32
    → s < 256 ^ 32
    → let signature = fill_bytes 32 r ++ fill_bytes 32 s in
      (length signature ≡ 64)
      × (set_bytes 0 (take 32 signature) ≡ r)
      × (set_bytes 0 (drop 32 signature) ≡ s)
signature_read r s h k = (
  omega (
    arith,
    length-append {0} (fill_bytes 32 r) (fill_bytes 32 s),
    length-fill_bytes 32 r,
    length-fill_bytes 32 s,
  ),
  ap (set_bytes 0) (take-append 32 (fill_bytes 32 r) (fill_bytes 32 s) (length-fill_bytes 32 r))
      ∙ set_bytes-fill_bytes 32 r h,
  ap (set_bytes 0) (drop-append 32 (fill_bytes 32 r) (fill_bytes 32 s) (length-fill_bytes 32 r))
      ∙ set_bytes-fill_bytes 32 s k,
)
