-- ===== src/Config/Durations.antt =====
-- The durations that `parseDurationValue` sets.
use procyon_modules.Base.{◌*◌, ◌≤◌, ◌≡◌, true, Option, none, some, arith}
use procyon_modules.Base.Int.{ℤ, pos, negsuc, pos_part, is_positive, int64, int64-small}
use procyon_modules.Base.Text.{Text, is_empty, trim_space}
use procyon_modules.Base.Text.Numbers.{atoi}
use procyon_modules.Exec.{Result, ok, err}
use procyon_modules.Exec.Results.{at_choice}
use procyon_modules.Config.{Platform, of_duration, of_seconds, parse_duration_value}

-- A number of seconds, if the text is one, that a `time.Duration` can hold.
abbrev pub IsSmall : Option ℤ → Type 0
IsSmall none = Unit
IsSmall (some seconds) = pos_part seconds ≤ 9223372036

unfoldable pub IsAccepted : Result ℤ → Type 0
IsAccepted (ok duration) = is_positive duration ≡ true
IsAccepted (err e) = Unit

seconds-positive :
    (seconds : ℤ)
    → pos_part seconds ≤ 9223372036
    → is_positive seconds ≡ true
    → is_positive (int64 (pos_part seconds * 1000000000)) ≡ true
seconds-positive (pos n) b h = rw (int64-small (n * 1000000000) (omega (arith, b))) (ground arith)
seconds-positive (negsuc n) b h = cc

duration-IsAccepted : (raw : Text) (o : Option ℤ) → IsAccepted (of_duration raw o)
unfolding IsAccepted
duration-IsAccepted raw none = tt
duration-IsAccepted raw (some duration) =
    at_choice IsAccepted (is_positive duration) _ _ (λ h. h) (λ h. tt)

seconds-IsAccepted :
    (platform : Platform) (raw : Text) (o : Option ℤ)
    → IsSmall o
    → IsAccepted (of_seconds platform raw o)
unfolding IsAccepted
seconds-IsAccepted platform raw none s = duration-IsAccepted raw (platform.parse_duration raw)
seconds-IsAccepted platform raw (some seconds) s =
    at_choice IsAccepted (is_positive seconds) _ _ (seconds-positive seconds s) (λ h. tt)

-- Over a positive default a setting is positive or refused, if it is blank, a duration of Go, or a
-- number of at most 9223372036 seconds.
pub parse_duration_value-IsAccepted :
    (platform : Platform) (target : ℤ) (raw : Text)
    → is_positive target ≡ true
    → IsSmall (atoi raw)
    → IsAccepted (parse_duration_value platform target raw)
unfolding parse_duration_value IsAccepted
parse_duration_value-IsAccepted platform target raw default small =
    at_choice IsAccepted (is_empty (trim_space raw)) _ _ (λ h. default)
      (λ h. seconds-IsAccepted platform raw (atoi raw) small)
