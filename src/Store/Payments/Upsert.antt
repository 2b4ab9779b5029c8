-- ===== src/Store/Payments/Upsert.antt =====
-- What `UpsertPayment` does to the row of its payment and to the other rows.
use procyon_modules.Base.{ℕ, ◌&&◌, ◌≡◌, refl, ap, ◌∙◌, Option, none, some, if◌then◌else◌}
use procyon_modules.Base.Text.{Text, ◌==◌, eq_refl}
use procyon_modules.Models.{Time, PaymentEvent}
use procyon_modules.Models.Errors.{database}
use procyon_modules.Exec.{Result, ok, err, World, Db, next_request}
use procyon_modules.Exec.Rules.{
  at_statement, at_bind_statement, at_bind_now, at_transaction, at_commit, at_abort, InTransaction,
}
use procyon_modules.Store.Table.{find}
use procyon_modules.Store.Keyed.{KeepsKey}
use procyon_modules.Store.Keyed.Laws.{find-insert_self, find-insert_ne, at_every_key}
use procyon_modules.Store.Keyed.Ids.{
  IsTable, update_id_self, update_id_ne, update_id-IsTable, insert-IsTable,
}
use procyon_modules.Store.Payments.{
  provider_of, external_of, is_payment, merged, dated, created, create_payment, update_payment,
  find_payment, write_payment, upsert_payment,
}

abbrev pub id_of : PaymentEvent → ℕ
id_of r = r.id

-- The row of a payment, as a lookup finds it.
abbrev pub payment_of : Text → Text → Db → Option PaymentEvent
payment_of p e db = find (is_payment p e) db.payments.rows

abbrev pub HasPayments : Db → Type 0
HasPayments db = IsTable provider_of external_of id_of db.payments

-- The row after an upsert at time `now`; `id` is the next primary key.
unfoldable pub upserted : Time → ℕ → PaymentEvent → Option PaymentEvent → PaymentEvent
upserted now id payment none = created now id (dated now payment)
upserted now id payment (some existing) = merged now (dated now payment) existing

-- The outcome of an upsert, as a predicate of its result: on an error the driver's text and the old
-- tables; on a return, for every key, the row that a lookup finds.
unfoldable pub Upserts : PaymentEvent → World → Result (Unit {0}) × World → Type 0
Upserts payment w (err x, w') = (w'.db ≡ w.db) × ((text : Text) × (x ≡ database text))
Upserts payment w (ok _, w') =
    let p = payment.provider in
    let e = payment.external_id in
    ((p' e' : Text)
      → payment_of p' e' w'.db ≡ (
          if p == p' && e == e'
          then some (upserted w.clock w.db.payments.next_id payment (payment_of p e w.db))
          else payment_of p' e' w.db))
    × (w'.db.webhooks ≡ w.db.webhooks)
    × (w'.db.subscriptions ≡ w.db.subscriptions)
    × HasPayments w'.db

merged-KeepsKey :
    (now : Time) (payment : PaymentEvent) → KeepsKey provider_of external_of (merged now payment)
unfolding merged
merged-KeepsKey now payment = record { keeps_first = λ r. refl; keeps_second = λ r. refl }

merged-id : (now : Time) (payment r : PaymentEvent) → (merged now payment r).id ≡ r.id
unfolding merged
merged-id now payment r = refl

module _ (payment : PaymentEvent) (w : World) (v : HasPayments w.db) where
  abbrev p : Text
  p = payment.provider

  abbrev e : Text
  e = payment.external_id

  failed : (text : Text) (w' : World) → w'.db ≡ w.db → Upserts payment w (err (database text), w')
  unfolding Upserts
  failed text w' h = (h, (text, refl))

  created_case :
      (w' : World)
      → w'.db ≡ (create_payment w.clock (dated w.clock payment) w.db).1
      → payment_of p e w.db ≡ none
      → Upserts payment w (ok tt, w')
  unfolding Upserts create_payment created dated upserted
  created_case w' d h =
      let x : PaymentEvent = created w.clock w.db.payments.next_id (dated w.clock payment) in
      rw d (
        at_every_key (λ a b. payment_of a b w.db) _ p e _
            (find-insert_self provider_of external_of w.db.payments.rows x h ∙ rw h)
            (find-insert_ne provider_of external_of w.db.payments.rows x),
        refl,
        refl,
        insert-IsTable provider_of external_of id_of w.db.payments x v refl h,
      )

  merged_case :
      (w' : World) (r : PaymentEvent)
      → w'.db ≡ (update_payment r.id (merged w.clock (dated w.clock payment)) w.db).1
      → payment_of p e w.db ≡ some r
      → Upserts payment w (ok tt, w')
  unfolding Upserts update_payment upserted
  merged_case w' r d h =
      let f : PaymentEvent → PaymentEvent = merged w.clock (dated w.clock payment) in
      let k = merged-KeepsKey w.clock (dated w.clock payment) in
      let i = merged-id w.clock (dated w.clock payment) in
      rw d (
        at_every_key (λ a b. payment_of a b w.db) _ p e _
            (update_id_self provider_of external_of id_of f k i p e w.db.payments v r h ∙ rw h)
            (update_id_ne provider_of external_of id_of f k i p e w.db.payments v r h),
        refl,
        refl,
        update_id-IsTable provider_of external_of id_of f k i p e w.db.payments v r h,
      )

  abbrev P : Result (Unit {0}) × World → Type 0
  P = Upserts payment w

  write_case :
      (o : Option PaymentEvent) (w' : World)
      → w'.db ≡ w.db
      → payment_of p e w.db ≡ o
      → InTransaction P w.db (write_payment w.clock (dated w.clock payment) o w')
  unfolding write_payment
  write_case none w' d h =
      at_statement (InTransaction P w.db) _ w' (λ text x. at_abort P w.db _ _ (failed text _ refl))
        (λ x.
          at_commit P w.db _ _
            (created_case _ (ap (λ db. (create_payment w.clock (dated w.clock payment) db).1) d) h))
  write_case (some r) w' d h =
      at_statement (InTransaction P w.db) _ w' (λ text x. at_abort P w.db _ _ (failed text _ refl))
        (λ x. at_commit P w.db _ _ (
          merged_case _ r
            (ap (λ db. (update_payment r.id (merged w.clock (dated w.clock payment)) db).1) d) h))

  -- `UpsertPayment`, on a table whose indexes hold: where it returns, it has created the row of its
  -- payment or merged the payment into it, and no other row or table has changed; where it fails, in
  -- whichever of its statements, the error is the driver's and nothing has changed.
  pub upsert_payment-Upserts : Upserts payment w (upsert_payment payment w)
  unfolding upsert_payment find_payment
  upsert_payment-Upserts = at_bind_now P _ w (
      at_transaction P _ w failed (
        at_bind_statement (InTransaction P w.db) _ _ (next_request w)
          (λ text. at_abort P w.db _ _ (failed text _ refl))
          (write_case (payment_of p e w.db) _ refl refl)))

-- The row that a lookup finds after an upsert that has returned.
pub upserted_found :
    (payment : PaymentEvent) (w w' : World)
    → HasPayments w.db
    → upsert_payment payment w ≡ (ok tt, w')
    → payment_of payment.provider payment.external_id w'.db
      ≡ some (
          upserted w.clock w.db.payments.next_id payment
            (payment_of payment.provider payment.external_id w.db))
unfolding Upserts
upserted_found payment w w' v h = go _ h (upsert_payment-Upserts payment w v)
  where
    go :
        (res : Result (Unit {0}) × World)
        → res ≡ (ok tt, w')
        → Upserts payment w res
        → payment_of payment.provider payment.external_id w'.db
          ≡ some (
              upserted w.clock w.db.payments.next_id payment
                (payment_of payment.provider payment.external_id w.db))
    go (err e, w1) q u = cc
    go (ok r, w1) q u =
        rw (← (ap (λ x. x.1) q))
          (u.0 _ _ ∙ rw (eq_refl payment.provider, eq_refl payment.external_id) refl)
