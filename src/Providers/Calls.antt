-- ===== src/Providers/Calls.antt =====
-- What the calls of the providers share: errors that are wrapped, replaced or passed over, and the
-- times that the providers report.
use procyon_modules.Base.{
  ℕ, zero, suc, ◌+◌, ◌-◌, ◌*◌, ◌/◌, Option, none, some, List, [], ◌∷◌, if◌then◌else◌,
}
use procyon_modules.Base.Int.{ℤ, pos, negsuc, difference}
use procyon_modules.Base.Text.{Text, ◌==◌, is_empty, trim_space}
use procyon_modules.Models.{Time}
use procyon_modules.Models.Errors.{Error}
use procyon_modules.Exec.{Result, ok, err, Exec}
use procyon_modules.Exec.Results.{wrap}
use procyon_modules.Config.{Product}
use procyon_modules.Store.Table.{find}

-- `fmt.Errorf("text: %w", err)` on the error of a call.
abbrev pub wrapping : {A : Type 0} → Text → Exec A → Exec A
wrapping text call w = let (r, w') = call w in (wrap text r, w')

abbrev pub replaced : {A : Type 0} → Error → Result A → Result A
replaced e (ok a) = ok a
replaced e (err d) = err e

-- `if err != nil { return e }`, whatever the error of the call is.
abbrev pub replacing : {A : Type 0} → Error → Exec A → Exec A
replacing e call w = let (r, w') = call w in (replaced e r, w')

abbrev value_of : {A : Type 0} → Result A → Option A
value_of (ok a) = some a
value_of (err e) = none

-- `if a, err := call; err == nil`: an error of the call is passed over.
abbrev pub attempt : {A : Type 0} → Exec A → Exec (Option A)
attempt call w = let (r, w') = call w in (ok (value_of r), w')

-- A `map[string]string`; the nil map is the empty one.
abbrev pub Metadata : Type 0
Metadata = List (Text × Text)

-- `metadata[key]`
unfoldable pub get : Metadata → Text → Text
get [] key = []
get ((k, v) ∷ m) key = let rest = get m key in if k == key then v else rest

-- `products[id]` in the map of one provider's products.
unfoldable pub product_at : List Product → Text → Option Product
unfolding find
product_at products id = find (λ q. q.product_id == id) products

-- Seconds between Go's zero time and 1970.
abbrev epoch : ℕ
epoch = 62135596800

-- `time.Unix(seconds, 0).UTC()`; a time before Go's zero time is that one.
unfoldable pub unix_time : ℤ → Time
unix_time (pos s) = (epoch + s) * 1000000000
unix_time (negsuc s) = (epoch - 1 - s) * 1000000000

-- `appleMillisecondsTime`: no time where there is no positive number of milliseconds.
unfoldable pub apple_milliseconds_time : ℤ → Time
apple_milliseconds_time (pos zero) = 0
apple_milliseconds_time (pos (suc n)) = (epoch * 1000 + suc n) * 1000000
apple_milliseconds_time (negsuc n) = 0

-- `t.Unix()`
unfoldable pub unix_seconds : Time → ℤ
unix_seconds t = difference (t / 1000000000) epoch

-- `t.UnixMilli()`
unfoldable pub unix_milli : Time → ℤ
unix_milli t = difference (t / 1000000) (epoch * 1000)

-- `firstPaymentValue`
unfoldable pub first_payment_value : List Text → Text
unfolding trim_space
first_payment_value [] = []
first_payment_value (v ∷ vs) =
    let rest = first_payment_value vs in if is_empty (trim_space v) then rest else v
