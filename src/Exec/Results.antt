-- ===== src/Exec/Results.antt =====
-- Chains of calls that return a value or an error and touch no state: `if err != nil { return … }`.
use procyon_modules.Base.{◌≡◌, refl, Bool, true, false, if◌then◌else◌}
use procyon_modules.Base.Text.{Text}
use procyon_modules.Models.Errors.{Error, wrapped}
use procyon_modules.Exec.{Result, ok, err}

infixl 5 ◌>>=◌ ◌>>◌
unfoldable pub ◌>>=◌ : {A B : Type 0} → Result A → (A → Result B) → Result B
ok a >>= f = f a
err e >>= f = err e

abbrev pub ◌>>◌ : {A B : Type 0} → Result A → Result B → Result B
r >> s = r >>= λ _. s

-- `if !b { return err }`
abbrev pub require : Bool → Error → Result (Unit {0})
require true e = ok tt
require false e = err e

-- `fmt.Errorf("text: %w", err)`
abbrev pub wrap : {A : Type 0} → Text → Result A → Result A
wrap text (ok a) = ok a
wrap text (err e) = err (wrapped text e)

-- One result holds one value.
pub same_value : {A : Type 0} (r : Result A) (x y : A) → r ≡ ok x → r ≡ ok y → x ≡ y
same_value r x y h k = cc

module _ {A B : Type 0} (P : Result B → Type 0) where
  -- What has to be shown of a chain: of its first part's errors, and of the rest after its value.
  pub at_then :
      (r : Result A) (f : A → Result B)
      → ((e : Error) → P (err e))
      → ((a : A) → r ≡ ok a → P (f a))
      → P (r >>= f)
  unfolding ◌>>=◌
  at_then (ok a) f failed done = done a refl
  at_then (err e) f failed done = failed e

module _ {B : Type 0} (P : Result B → Type 0) where
  pub at_require :
      (b : Bool) (e : Error) (r : Result B)
      → ((d : Error) → P (err d))
      → (b ≡ true → P r)
      → P (require b e >> r)
  unfolding ◌>>=◌
  at_require true e r failed done = done refl
  at_require false e r failed done = failed e

  pub at_choice :
      (b : Bool) (r s : Result B) → (b ≡ true → P r) → (b ≡ false → P s) → P (if b then r else s)
  at_choice true r s first second = first refl
  at_choice false r s first second = second refl
