-- ===== src/Models/Errors.antt =====
-- The error values: the sentinels of models/errors.go and services/service.go, gorm's "not
-- found", errors that only carry a text, and the two ways in which the source wraps errors.
use procyon_modules.Base.{ℕ, Bool, ◌||◌, eqb, Option, none, some, List, [], ◌∷◌, ◌++◌}
use procyon_modules.Base.Text.{Text, bytes}

pub data Sentinel : Type 0 where
  provider_unsupported capability_missing invalid_signature invalid_return_url : Sentinel
  subscription_active ownership_conflict product_rejected idempotency_key : Sentinel
  webhook_lease_lost record_not_found : Sentinel

-- `database` is what the driver reports, `wrapped` is `fmt.Errorf("…: %w", err)`.
pub data Error : Type 0 where
  sentinel : Sentinel → Error
  message : Text → Error
  database : Text → Error
  wrapped : Text → Error → Error
  joined : Error → Error → Error

abbrev index : Sentinel → ℕ
index Sentinel.provider_unsupported = 0
index Sentinel.capability_missing = 1
index Sentinel.invalid_signature = 2
index Sentinel.invalid_return_url = 3
index Sentinel.subscription_active = 4
index Sentinel.ownership_conflict = 5
index Sentinel.product_rejected = 6
index Sentinel.idempotency_key = 7
index Sentinel.webhook_lease_lost = 8
index Sentinel.record_not_found = 9

-- `errors.Is(err, target)` for a sentinel.
unfoldable pub is : Error → Sentinel → Bool
is (sentinel s) t = eqb (index s) (index t)
is (message m) t = Bool.false
is (database m) t = Bool.false
is (wrapped m e) t = is e t
is (joined e d) t = is e t || is d t

abbrev sentinel_text : Sentinel → Text
sentinel_text Sentinel.provider_unsupported = bytes "payment provider is not enabled"
sentinel_text Sentinel.capability_missing = bytes "payment capability is not supported"
sentinel_text Sentinel.invalid_signature = bytes "invalid payment webhook signature"
sentinel_text Sentinel.invalid_return_url = bytes "payment return URL is not allowed"
sentinel_text Sentinel.subscription_active = bytes "an active subscription already exists"
sentinel_text Sentinel.ownership_conflict = bytes "payment resource belongs to another identity"
sentinel_text Sentinel.product_rejected = bytes "payment product is not allowed"
sentinel_text Sentinel.idempotency_key = bytes "valid idempotency key is required"
sentinel_text Sentinel.webhook_lease_lost = bytes "payment webhook processing lease was lost"
sentinel_text Sentinel.record_not_found = bytes "record not found"

-- `err.Error()`
unfoldable pub error_text : Error → Text
error_text (sentinel s) = sentinel_text s
error_text (message m) = m
error_text (database m) = m
error_text (wrapped m e) = m ++ bytes ": " ++ error_text e
error_text (joined e d) = error_text e ++ 10 ∷ error_text d

-- `errors.Join`: nil when there is no error.
unfoldable pub join : List Error → Option Error
join [] = none
join (e ∷ []) = some e
join (e ∷ d ∷ es) = elim (join (d ∷ es)) [ none ↦ some e | some r ↦ some (joined e r) ]
