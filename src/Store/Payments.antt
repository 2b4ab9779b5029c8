-- ===== src/Store/Payments.antt =====
-- The payment operations of store.go: an upsert that merges, and the lookups.
pub mod Settled
pub mod Upsert
pub mod Ranks
use procyon_modules.Base.{
  ℕ, suc, Bool, true, false, ◌&&◌, Option, none, some, List, [], ◌∷◌, ◌++◌, eqb, ltb, leb,
  if◌then◌else◌, select,
}
use procyon_modules.Base.Int.{ℤ, is_zero}
use procyon_modules.Base.Text.{Text, ◌==◌, is_empty}
use procyon_modules.Models.{Time, PaymentStatus, PaymentEvent}
use procyon_modules.Exec.{Table, Db, Exec, pure, ◌>>=◌, ◌>>◌, time_now, statement, transaction}
use procyon_modules.Store.Keyed.{is_key}
use procyon_modules.Store.Table.{find, update_where, order_desc, page}
use procyon_modules.Store.Webhooks.{or_not_found}

-- The columns of the unique index.
abbrev pub provider_of : PaymentEvent → Text
provider_of r = r.provider

abbrev pub external_of : PaymentEvent → Text
external_of r = r.external_id

-- `provider = ? AND external_id = ?`
abbrev pub is_payment : Text → Text → PaymentEvent → Bool
is_payment = is_key provider_of external_of

-- `paymentStatusRank`
unfoldable pub payment_status_rank : PaymentStatus → ℕ
payment_status_rank PaymentStatus.pending = 1
payment_status_rank PaymentStatus.succeeded = 2
payment_status_rank PaymentStatus.canceled = 3
payment_status_rank PaymentStatus.failed = 3
payment_status_rank PaymentStatus.disputed = 4
payment_status_rank PaymentStatus.refunded = 5
payment_status_rank (PaymentStatus.other text) = 0

-- `if value != "" { updates[key] = value }`
abbrev pub keep_unless_set : Text → Text → Text
keep_unless_set new old = if is_empty new then old else new

-- The columns that an upsert writes over an existing row.
unfoldable pub merged : Time → PaymentEvent → PaymentEvent → PaymentEvent
unfolding payment_status_rank
merged now payment existing = record existing {
  updated_at = now;
  identity_id = keep_unless_set payment.identity_id existing.identity_id;
  customer_id = keep_unless_set payment.customer_id existing.customer_id;
  subscription_id = keep_unless_set payment.subscription_id existing.subscription_id;
  price_id = keep_unless_set payment.price_id existing.price_id;
  kind = keep_unless_set payment.kind existing.kind;
  currency = keep_unless_set payment.currency existing.currency;
  amount_minor =
      if is_zero payment.amount_minor then existing.amount_minor else payment.amount_minor;
  occurred_at =
      if ltb existing.occurred_at payment.occurred_at
      then payment.occurred_at
      else existing.occurred_at;
  status =
      if leb (payment_status_rank existing.status) (payment_status_rank payment.status)
      then payment.status
      else existing.status;
}

-- `payment.OccurredAt` where it is set, and else the time of the call.
unfoldable pub dated : Time → PaymentEvent → PaymentEvent
dated now payment = record payment {
  occurred_at = if eqb payment.occurred_at 0 then now else payment.occurred_at;
}

-- A row as `Create` writes it.
unfoldable pub created : Time → ℕ → PaymentEvent → PaymentEvent
created now id payment = record payment { id = id; created_at = now; updated_at = now }

-- `tx.Create(&payment)`
unfoldable pub create_payment : Time → PaymentEvent → Db → Unit {0} × Db
create_payment now payment db = (
  tt,
  record db {
    payments = record {
      rows = db.payments.rows ++ created now db.payments.next_id payment ∷ [];
      next_id = suc db.payments.next_id;
    };
  },
)

-- `UPDATE payment_events … WHERE id = ?`
unfoldable pub update_payment : ℕ → (PaymentEvent → PaymentEvent) → Db → Unit {0} × Db
update_payment id f db = (
  tt,
  record db {
    payments = record db.payments { rows = update_where (λ r. eqb r.id id) f db.payments.rows };
  },
)

unfoldable pub find_payment : Text → Text → Db → Option PaymentEvent × Db
find_payment provider external_id db = (find (is_payment provider external_id) db.payments.rows, db)

-- What follows the SELECT … FOR UPDATE.
unfoldable pub write_payment : Time → PaymentEvent → Option PaymentEvent → Exec (Unit {0})
write_payment now payment none = statement (create_payment now payment)
write_payment now payment (some existing) =
    statement (update_payment existing.id (merged now payment))

-- `UpsertPayment`
unfoldable pub upsert_payment : PaymentEvent → Exec (Unit {0})
upsert_payment payment = do
  now ← time_now
  transaction do
    existing ← statement (find_payment payment.provider payment.external_id)
    write_payment now (dated now payment) existing

-- `GetPayment`
unfoldable pub get_payment : Text → Text → Exec PaymentEvent
get_payment provider external_id = do
  found ← statement (find_payment provider external_id)
  or_not_found found

-- `ListPayments`
unfoldable pub list_payments : Text → ℤ → ℤ → Exec (List PaymentEvent)
list_payments identity_id limit offset = statement (λ db. (
  page limit offset (
      order_desc (λ r. r.occurred_at)
        (select (λ r. r.identity_id == identity_id) db.payments.rows)),
  db,
))
