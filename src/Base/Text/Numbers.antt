-- ===== src/Base/Text/Numbers.antt =====
-- `strconv.Atoi`, and `strings.Cut`, `Split` and `TrimRight` at one byte.
use Prim.Native.Nat.{ℕ, zero, suc, ◌+◌, ◌*◌, ◌-◌, ◌^◌}
use mathlib.Core.Bool.{◌&&◌}
use mathlib.Core.Option.{Option, none, some}
use mathlib.Core.List.{List, [], ◌∷◌}
use procyon_modules.Base.Tests.{ltb, leb, eqb, if◌then◌else◌}
use procyon_modules.Base.Int.{ℤ, pos, negsuc}
use procyon_modules.Base.Text.{Text}

-- The value of decimal digits after `n`; none where another byte stands among them.
unfoldable pub digits : ℕ → Text → Option ℕ
digits n [] = some n
digits n (c ∷ s) =
    let rest = digits (n * 10 + (c - b'0')) s in if leb b'0' c && leb c b'9' then rest else none

unfoldable pub unsigned : Text → Option ℕ
unfolding digits
unsigned [] = none
unsigned (c ∷ s) = digits 0 (c ∷ s)

abbrev positive : Option ℕ → Option ℤ
positive none = none
positive (some n) = if ltb n (2 ^ 63) then some (pos n) else none

abbrev minus : ℕ → ℤ
minus zero = pos 0
minus (suc n) = negsuc n

abbrev negative : Option ℕ → Option ℤ
negative none = none
negative (some n) = if leb n (2 ^ 63) then some (minus n) else none

-- `strconv.Atoi` with 64-bit integers; none is its error.
unfoldable pub atoi : Text → Option ℤ
unfolding unsigned
atoi [] = none
atoi (c ∷ s) =
    if eqb c b'-'
    then negative (unsigned s)
    else if eqb c b'+'
    then positive (unsigned s)
    else positive (unsigned (c ∷ s))

abbrev before : ℕ → Option (Text × Text) → Option (Text × Text)
before c none = none
before c (some (s, t)) = some (c ∷ s, t)

-- `strings.Cut` at one byte: what stands before its first occurrence, and after it.
unfoldable pub cut : ℕ → Text → Option (Text × Text)
cut b [] = none
cut b (c ∷ s) = let rest = cut b s in if eqb c b then some ([], s) else before c rest

abbrev begin : ℕ → List Text → List Text
begin c [] = (c ∷ []) ∷ []
begin c (s ∷ ss) = (c ∷ s) ∷ ss

-- `strings.Split` at one byte.
unfoldable pub split : ℕ → Text → List Text
split b [] = [] ∷ []
split b (c ∷ s) = let rest = split b s in if eqb c b then [] ∷ rest else begin c rest

abbrev keep_unless : ℕ → ℕ → Text → Text
keep_unless b c [] = if eqb c b then [] else c ∷ []
keep_unless b c (d ∷ s) = c ∷ d ∷ s

-- `strings.TrimRight` with a cutset of one byte.
unfoldable pub trim_end : ℕ → Text → Text
trim_end b [] = []
trim_end b (c ∷ s) = keep_unless b c (trim_end b s)
