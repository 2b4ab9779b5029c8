-- ===== src/Store/Payments/Ranks.antt =====
-- The rank of a payment's status and its time over histories of upserts (`UpsertPayment` of
-- store.go).
use procyon_modules.Base.{
  ℕ, ◌≡◌, ◌≢◌, refl, ap, ◌∙◌, Bool, ◌&&◌, Option, none, some, List, [], ◌∷◌, arith, inl, inr,
  Bool-cases, if◌then◌else◌, eqb, ltb, leb,
}
use Prim.Native.Nat.{max}
use procyon_modules.Base.Int.{ℤ, is_zero}
use procyon_modules.Base.Text.{Text, ◌==◌}
use procyon_modules.Models.{Time, PaymentStatus, PaymentEvent}
use procyon_modules.Exec.{Result, ok, err, World}
use procyon_modules.Store.Keyed.Laws.{at_own_key}
use procyon_modules.Store.Payments.{
  payment_status_rank, merged, dated, created, upsert_payment, keep_unless_set,
}
use procyon_modules.Store.Payments.Upsert.{
  payment_of, HasPayments, upserted, Upserts, upsert_payment-Upserts,
}

-- The upserts that any callers make, each at its time, in the order in which they are served.
unfoldable pub run : List (Time × PaymentEvent) → World → World
run [] w = w
run ((t, payment) ∷ ps) w = run ps (upsert_payment payment (record w { clock = t })).1

abbrev pub rank_of : Option PaymentEvent → ℕ
rank_of none = 0
rank_of (some r) = payment_status_rank r.status

abbrev pub date_of : Option PaymentEvent → ℕ
date_of none = 0
date_of (some r) = r.occurred_at

-- What an upsert that returned brings to a payment: `measure` of what it stored, and 0 to another
-- payment or where it failed.
abbrev brings : Bool → ℕ → Result (Unit {0}) → ℕ
brings mine n (ok u) = if mine then n else 0
brings mine n (err x) = 0

-- The largest `measure` of the upserts of one payment that returned.
unfoldable pub largest :
    (Time → PaymentEvent → ℕ) → Text → Text → List (Time × PaymentEvent) → World → ℕ
largest measure p e [] w = 0
largest measure p e ((t, payment) ∷ ps) w =
    let (r, w') = upsert_payment payment (record w { clock = t }) in
    max (brings (payment.provider == p && payment.external_id == e) (measure t payment) r)
      (largest measure p e ps w')

abbrev pub status_measure : Time → PaymentEvent → ℕ
status_measure t payment = payment_status_rank payment.status

abbrev pub date_measure : Time → PaymentEvent → ℕ
date_measure t payment = if eqb payment.occurred_at 0 then t else payment.occurred_at

rank-upserted :
    (t : Time) (id : ℕ) (payment : PaymentEvent) (o : Option PaymentEvent)
    → rank_of (some (upserted t id payment o)) ≡ max (rank_of o) (status_measure t payment)
unfolding upserted merged dated created
rank-upserted t id payment none = ground arith
rank-upserted t id payment (some r) = ground arith

date-upserted :
    (t : Time) (id : ℕ) (payment : PaymentEvent) (o : Option PaymentEvent)
    → date_of (some (upserted t id payment o)) ≡ max (date_of o) (date_measure t payment)
unfolding upserted merged dated created
date-upserted t id payment none = ground arith
date-upserted t id payment (some r) = ground arith

-- One upsert, for any measure of rows that `upserted` raises to the maximum.
module _ (of : Option PaymentEvent → ℕ) (measure : Time → PaymentEvent → ℕ)
    (raises : (t : Time) (id : ℕ) (payment : PaymentEvent) (o : Option PaymentEvent)
      → of (some (upserted t id payment o)) ≡ max (of o) (measure t payment))
    (p e : Text) where
  step_max :
      (t : Time) (payment : PaymentEvent) (w : World) (res : Result (Unit {0}) × World)
      → HasPayments w.db
      → Upserts payment (record w { clock = t }) res
      → (of (payment_of p e res.1.db)
          ≡ max (of (payment_of p e w.db)) (
              brings (payment.provider == p && payment.external_id == e) (measure t payment) res.0))
        × HasPayments res.1.db
  unfolding Upserts
  step_max t payment w (err x, w') v h = (rw h.0 (omega arith), rw h.0 v)
  step_max t payment w (ok u, w') v h =
      elim (Bool-cases (payment.provider == p && payment.external_id == e)) [
        | inl m ↦ (
          rw m (
              ap of (
                at_own_key (λ a b. payment_of a b w.db) (λ a b. payment_of a b w'.db)
                  payment.provider payment.external_id p e
                  (λ a b. some (upserted t w.db.payments.next_id payment (payment_of a b w.db))) m
                  (h.0 p e))
              ∙ raises t w.db.payments.next_id payment (payment_of p e w.db)),
          h.3,
        )
        | inr m ↦ (rw (m, h.0 p e, m) (omega arith), h.3)
      ]

  run-max :
      (ps : List (Time × PaymentEvent)) (w : World)
      → HasPayments w.db
      → of (payment_of p e (run ps w).db)
        ≡ max (of (payment_of p e w.db)) (largest measure p e ps w)
  unfolding run largest
  run-max [] w v = omega arith
  run-max ((t, payment) ∷ ps) w v =
      let now : World = record w { clock = t } in
      let (one, v') =
        step_max t payment w (upsert_payment payment now) v
          (upsert_payment-Upserts payment now v) in
      omega (arith, one, run-max ps (upsert_payment payment now).1 v')

-- From a table of payments with unique keys, after any history of upserts the rank of a payment's
-- status is the largest of the rank that it had and of the ranks of the upserts of this payment
-- that returned: it never falls back.
pub status_rank_max :
    (p e : Text) (ps : List (Time × PaymentEvent)) (w : World)
    → HasPayments w.db
    → rank_of (payment_of p e (run ps w).db)
      ≡ max (rank_of (payment_of p e w.db)) (largest status_measure p e ps w)
status_rank_max p e = run-max rank_of status_measure rank-upserted p e

-- From a table of payments with unique keys, after any history of upserts the time of a payment is
-- the latest of the time that it had and of the times of the upserts of this payment that returned.
pub occurred_at_max :
    (p e : Text) (ps : List (Time × PaymentEvent)) (w : World)
    → HasPayments w.db
    → date_of (payment_of p e (run ps w).db)
      ≡ max (date_of (payment_of p e w.db)) (largest date_measure p e ps w)
occurred_at_max p e = run-max date_of date_measure date-upserted p e

keep_again : (a b : Text) → keep_unless_set a (keep_unless_set a b) ≡ keep_unless_set a b
keep_again [] b = refl
keep_again (c ∷ a) b = refl

keep_same : (a : Text) → keep_unless_set a a ≡ a
keep_same [] = refl
keep_same (c ∷ a) = refl

amount_again :
    (a b : ℤ)
    → (let m = if is_zero a then b else a in if is_zero a then m else a)
      ≡ (if is_zero a then b else a)
amount_again a b = ground arith

date_again :
    (a b : ℕ)
    → (let m = if ltb b a then a else b in if ltb m a then a else m) ≡ (if ltb b a then a else b)
date_again a b = ground arith

status_again :
    (a b : PaymentStatus)
    → (let m = if leb (payment_status_rank b) (payment_status_rank a) then a else b in
        if leb (payment_status_rank m) (payment_status_rank a) then a else m)
      ≡ (if leb (payment_status_rank b) (payment_status_rank a) then a else b)
status_again a b = ground arith

merged_again :
    (t t' : Time) (a r : PaymentEvent)
    → merged t' a (merged t a r) ≡ record (merged t a r) { updated_at = t' }
unfolding merged
merged_again t t' a r = λ i. record (merged t' a r) {
  identity_id = keep_again a.identity_id r.identity_id i;
  customer_id = keep_again a.customer_id r.customer_id i;
  subscription_id = keep_again a.subscription_id r.subscription_id i;
  price_id = keep_again a.price_id r.price_id i;
  kind = keep_again a.kind r.kind i;
  currency = keep_again a.currency r.currency i;
  amount_minor = amount_again a.amount_minor r.amount_minor i;
  occurred_at = date_again a.occurred_at r.occurred_at i;
  status = status_again a.status r.status i;
}

amount_same : (a : ℤ) → (if is_zero a then a else a) ≡ a
amount_same a = ground arith

date_same : (a : ℕ) → (if ltb a a then a else a) ≡ a
date_same a = ground arith

status_same :
    (a : PaymentStatus) → (if leb (payment_status_rank a) (payment_status_rank a) then a else a) ≡ a
status_same a = ground arith

merged-created :
    (t t' : Time) (id : ℕ) (a : PaymentEvent)
    → merged t' a (created t id a) ≡ record (created t id a) { updated_at = t' }
unfolding merged created
merged-created t t' id a = λ i. record (created t' id a) {
  created_at = t;
  identity_id = keep_same a.identity_id i;
  customer_id = keep_same a.customer_id i;
  subscription_id = keep_same a.subscription_id i;
  price_id = keep_same a.price_id i;
  kind = keep_same a.kind i;
  currency = keep_same a.currency i;
  amount_minor = amount_same a.amount_minor i;
  occurred_at = date_same a.occurred_at i;
  status = status_same a.status i;
}

dated_once : (t t' : Time) (a : PaymentEvent) → a.occurred_at ≢ 0 → dated t' a ≡ dated t a
unfolding dated
dated_once t t' a d = ground arith

-- An upsert of the payment that was upserted last changes only the time of the update, if the
-- payment carries its date: a provider may deliver an event any number of times.
pub upserted_again :
    (t t' : Time) (id id' : ℕ) (payment : PaymentEvent) (o : Option PaymentEvent)
    → payment.occurred_at ≢ 0
    → upserted t' id' payment (some (upserted t id payment o))
      ≡ record (upserted t id payment o) { updated_at = t' }
unfolding upserted
upserted_again t t' id id' payment none d =
    rw (dated_once t t' payment d) (merged-created t t' id (dated t payment))
upserted_again t t' id id' payment (some r) d =
    rw (dated_once t t' payment d) (merged_again t t' (dated t payment) r)
