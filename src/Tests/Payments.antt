-- ===== src/Tests/Payments.antt =====
-- Payments on concrete databases.
use procyon_modules.Base.{◌≡◌, ◌≢◌, refl, none, some, List, [], ◌∷◌, arith}
use Prim.Native.Nat.{max}
use procyon_modules.Base.Text.{Text, bytes, ◌==◌}
use procyon_modules.Models.{Time, PaymentStatus, PaymentEvent}
use procyon_modules.Exec.{World, ◌>>=◌, time_now, statement, transaction}
use procyon_modules.Store.Table.{find, update_where}
use procyon_modules.Store.Keyed.{is_key}
use procyon_modules.Store.Payments.{
  upsert_payment, find_payment, write_payment, create_payment, update_payment, merged, created,
  dated,
}
use procyon_modules.Store.Payments.Upsert.{
  payment_of, HasPayments, upserted, Upserts, upsert_payment-Upserts,
}
use procyon_modules.Store.Payments.Ranks.{
  run, rank_of, largest, status_measure, status_rank_max, upserted_again,
}
use procyon_modules.Tests.{new_world, failing_world, payment}

abbrev stripe : Text
stripe = bytes "stripe"

abbrev invoice : Text
invoice = bytes "in_1"

-- No statement before the fifth fails.
abbrev start : World
start = failing_world 100 5

start-HasPayments : HasPayments start.db
start-HasPayments = record { index = tt; ids = tt; below = tt }

-- A refund arrives before the payment it refunds; another payment follows.
abbrev arrivals : List (Time × PaymentEvent)
arrivals =
    (100, payment PaymentStatus.refunded 90)
    ∷ (110, payment PaymentStatus.succeeded 80)
    ∷ (120, record (payment PaymentStatus.pending 0) { external_id = bytes "in_2" })
    ∷ []

status_rank_max_example :
    rank_of (payment_of stripe invoice (run arrivals start).db)
    ≡ max
        (rank_of (payment_of stripe invoice start.db))
        (largest status_measure stripe invoice arrivals start)
status_rank_max_example = status_rank_max stripe invoice arrivals start start-HasPayments

has_date : (payment PaymentStatus.succeeded 80).occurred_at ≢ 0
has_date h = omega (arith, h)

upserted_again_example :
    let first = upserted 100 1 (payment PaymentStatus.succeeded 80) none in
    upserted 120 2 (payment PaymentStatus.succeeded 80) (some first)
    ≡ record first { updated_at = 120 }
upserted_again_example =
    upserted_again 100 120 1 2 (payment PaymentStatus.succeeded 80) none has_date

upsert_payment-Upserts_example :
    Upserts
      (payment PaymentStatus.succeeded 80)
      start
      (upsert_payment (payment PaymentStatus.succeeded 80) start)
upsert_payment-Upserts_example =
    upsert_payment-Upserts (payment PaymentStatus.succeeded 80) start start-HasPayments

-- The refund stays, though the payment's event comes after it.
refund_stays :
    payment_of stripe invoice (run arrivals (new_world 100)).db
    ≡ some
        (record (payment PaymentStatus.refunded 90) { id = 1; created_at = 100; updated_at = 110 })
unfolding run find upsert_payment ◌>>=◌ time_now transaction statement write_payment find_payment
    create_payment is_key ◌==◌ created dated update_payment update_where merged
refund_stays = refl
