-- ===== src/Base/Text/Laws.antt =====
-- Laws of the string functions of the source: trimming and lowering, and comparison.
use procyon_modules.Base.Tests.{if◌then◌else◌}
use procyon_modules.Base.Text.{
  Text, ◌==◌, is_space, lower_byte, to_lower, trim_left, keep_right, trim_right, trim_space,
  normalized,
}
use Prim.Native.Nat.{ℕ}
use mathlib.Core.Path.{◌≡◌, refl, ap, ◌∙◌}
use mathlib.Core.List.{[], ◌∷◌}
use native.Mathlib.Omega.{arith}

lower_byte_idem : (c : ℕ) → lower_byte (lower_byte c) ≡ lower_byte c
unfolding lower_byte
lower_byte_idem c = ground arith

is_space-lower_byte : (c : ℕ) → is_space (lower_byte c) ≡ is_space c
unfolding is_space lower_byte
is_space-lower_byte c = ground arith

pub to_lower_idem : (s : Text) → to_lower (to_lower s) ≡ to_lower s
unfolding to_lower
to_lower_idem [] = refl
to_lower_idem (c ∷ s) = cc (lower_byte_idem c, to_lower_idem s)

trim_left-to_lower : (s : Text) → trim_left (to_lower s) ≡ to_lower (trim_left s)
unfolding trim_left to_lower
trim_left-to_lower [] = refl
trim_left-to_lower (c ∷ s) = ground (arith, is_space-lower_byte c, trim_left-to_lower s)

keep_right-to_lower :
    (c : ℕ) (t : Text) → keep_right (lower_byte c) (to_lower t) ≡ to_lower (keep_right c t)
unfolding to_lower
keep_right-to_lower c [] = ground (arith, is_space-lower_byte c)
keep_right-to_lower c (d ∷ t) = refl

trim_right-to_lower : (s : Text) → trim_right (to_lower s) ≡ to_lower (trim_right s)
unfolding trim_right to_lower
trim_right-to_lower [] = refl
trim_right-to_lower (c ∷ s) =
    ap (keep_right (lower_byte c)) (trim_right-to_lower s) ∙ keep_right-to_lower c (trim_right s)

pub trim_space-to_lower : (s : Text) → trim_space (to_lower s) ≡ to_lower (trim_space s)
unfolding trim_space
trim_space-to_lower s = rw (trim_left-to_lower s) (trim_right-to_lower (trim_left s))

trim_left_idem : (s : Text) → trim_left (trim_left s) ≡ trim_left s
unfolding trim_left
trim_left_idem [] = refl
trim_left_idem (c ∷ s) = ground (arith, trim_left_idem s)

trim_right-keep_right :
    (c : ℕ) (t : Text) → trim_right t ≡ t → trim_right (keep_right c t) ≡ keep_right c t
unfolding trim_right
trim_right-keep_right c [] h = ground arith
trim_right-keep_right c (d ∷ t) h = ap (keep_right c) h

trim_right_idem : (s : Text) → trim_right (trim_right s) ≡ trim_right s
unfolding trim_right
trim_right_idem [] = refl
trim_right_idem (c ∷ s) = trim_right-keep_right c (trim_right s) (trim_right_idem s)

trim_left-keep_right :
    (c : ℕ) (t : Text)
    → trim_left (keep_right c t) ≡ (if is_space c then trim_left t else keep_right c t)
unfolding trim_left
trim_left-keep_right c [] = ground arith
trim_left-keep_right c (d ∷ t) = ground arith

trim_left-trim_right : (s : Text) → trim_left (trim_right s) ≡ trim_right (trim_left s)
unfolding trim_left trim_right
trim_left-trim_right [] = refl
trim_left-trim_right (c ∷ s) =
    ground (arith, trim_left-keep_right c (trim_right s), trim_left-trim_right s)

-- Trimming a trimmed text changes nothing.
pub trim_space_idem : (s : Text) → trim_space (trim_space s) ≡ trim_space s
unfolding trim_space
trim_space_idem s =
    rw (trim_left-trim_right (trim_left s)) (rw (trim_left_idem s) (trim_right_idem (trim_left s)))

pub normalized_idem : (s : Text) → normalized (normalized s) ≡ normalized s
unfolding normalized
normalized_idem s =
    ap to_lower (trim_space-to_lower (trim_space s))
    ∙ to_lower_idem (trim_space (trim_space s))
    ∙ ap to_lower (trim_space_idem s)

pub eq_comm : (s t : Text) → (s == t) ≡ (t == s)
unfolding ◌==◌
eq_comm [] [] = refl
eq_comm [] (d ∷ t) = refl
eq_comm (c ∷ s) [] = refl
eq_comm (c ∷ s) (d ∷ t) = ground (arith, eq_comm s t)
