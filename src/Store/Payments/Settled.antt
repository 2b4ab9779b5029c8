-- ===== src/Store/Payments/Settled.antt =====
-- The status that `UpsertPayment` leaves, after the rank of status.go.
use procyon_modules.Base.{ℕ, ◌≡◌, Option, none, some, arith, leb, if◌then◌else◌}
use procyon_modules.Models.{Time, PaymentStatus, PaymentEvent}
use procyon_modules.Exec.{ok, World}
use procyon_modules.Store.Payments.{payment_status_rank, merged, dated, created, upsert_payment}
use procyon_modules.Store.Payments.Upsert.{payment_of, HasPayments, upserted, upserted_found}

-- The status after a report: the reported one, unless the one that is kept has a higher rank.
abbrev pub settled : Option PaymentEvent → PaymentStatus → PaymentStatus
settled none status = status
settled (some r) status =
    if leb (payment_status_rank r.status) (payment_status_rank status) then status else r.status

upserted-settled :
    (now : Time) (id : ℕ) (payment : PaymentEvent) (o : Option PaymentEvent)
    → (upserted now id payment o).status ≡ settled o payment.status
unfolding upserted merged created dated
upserted-settled now id payment none = ground arith
upserted-settled now id payment (some r) = ground arith

-- The row after an upsert that has returned, and its status.
pub upserted_settled :
    (payment : PaymentEvent) (w w' : World)
    → HasPayments w.db
    → upsert_payment payment w ≡ (ok tt, w')
    → let o = payment_of payment.provider payment.external_id w.db in
      (r : PaymentEvent) × (payment_of payment.provider payment.external_id w'.db ≡ some r)
      × (r.status ≡ settled o payment.status)
upserted_settled payment w w' v h =
    let o = payment_of payment.provider payment.external_id w.db in
    (
      upserted w.clock w.db.payments.next_id payment o,
      upserted_found payment w w' v h,
      upserted-settled w.clock w.db.payments.next_id payment o,
    )
