-- ===== src/Providers/Apple/Kept.antt =====
-- What a transaction of provider_apple.go leaves in the tables, once it has been kept.
use procyon_modules.Base.{
  ◌≡◌, refl, sym, ap, ◌∙◌, subst, Bool, true, false, not, Option, some, if◌then◌else◌,
}
use procyon_modules.Base.Text.{Text, is_empty, trim_space}
use procyon_modules.Models.{PaymentEvent, SubscriptionStatus, PaymentSubscription}
use procyon_modules.Exec.{Result, ok, err, World, pure, time_now}
use procyon_modules.Exec.Rules.{time_now_returns, bind_returns, from_bind_returns}
use procyon_modules.Config.{Product}
use procyon_modules.Store.Payments.{upsert_payment}
use procyon_modules.Store.Payments.Settled.{settled, upserted_settled}
use procyon_modules.Store.Payments.Upsert.{payment_of, HasPayments, Upserts, upsert_payment-Upserts}
use procyon_modules.Store.Subscriptions.{upsert_subscription}
use procyon_modules.Store.Subscriptions.Upsert as Subscriptions
use procyon_modules.Store.Subscriptions.Upsert.{
  subscription_of, HasSubscriptions, upserted_owned, upsert_subscription-Upserts,
}
use procyon_modules.Providers.Calls.{apple_milliseconds_time}
use procyon_modules.Providers.Apple.{
  AppleTransactionPayload, AppleRenewalPayload, ApplePaymentProvider, apple,
}
use procyon_modules.Providers.Apple.Transactions.{
  apple_subscription_status, with_renewal, apple_subscription, record_transaction, keep_transaction,
  apple_payment_status,
}

-- An upsert of a payment leaves the subscriptions.
payment_leaves :
    (payment : PaymentEvent) (w w' : World)
    → HasPayments w.db
    → upsert_payment payment w ≡ (ok tt, w')
    → w'.db.subscriptions ≡ w.db.subscriptions
unfolding Upserts
payment_leaves payment w w' v h = go _ h (upsert_payment-Upserts payment w v)
  where
    go :
        (res : Result (Unit {0}) × World)
        → res ≡ (ok tt, w')
        → Upserts payment w res
        → w'.db.subscriptions ≡ w.db.subscriptions
    go (err e, w1) q u = cc
    go (ok r, w1) q u = ap (λ s. s.1.db.subscriptions) (sym q) ∙ u.2

subscription_leaves :
    (s : PaymentSubscription) (w w' : World)
    → HasSubscriptions w.db
    → upsert_subscription s w ≡ (ok tt, w')
    → w'.db.payments ≡ w.db.payments
unfolding Subscriptions.Upserts
subscription_leaves s w w' v h = go _ h (upsert_subscription-Upserts s w v)
  where
    go :
        (res : Result (Unit {0}) × World)
        → res ≡ (ok tt, w')
        → Subscriptions.Upserts s w res
        → w'.db.payments ≡ w.db.payments
    go (err e, w1) q u = cc
    go (ok r, w1) q u = ap (λ r. r.1.db.payments) (sym q) ∙ u.3

chosen_leaves :
    (b : Bool) (payment : PaymentEvent) (w w' : World)
    → HasPayments w.db
    → (if b then upsert_payment payment else pure tt) w ≡ (ok tt, w')
    → w'.db.subscriptions ≡ w.db.subscriptions
unfolding pure
chosen_leaves true payment w w' v h = payment_leaves payment w w' v h
chosen_leaves false payment w w' v h = ap (λ r. r.1.db.subscriptions) (sym h)

chosen_settled :
    (b : Bool) (payment : PaymentEvent) (w w' : World)
    → HasPayments w.db
    → b ≡ true
    → (if b then upsert_payment payment else pure tt) w ≡ (ok tt, w')
    → (x : PaymentEvent) × (payment_of payment.provider payment.external_id w'.db ≡ some x)
      × (x.status ≡ settled (payment_of payment.provider payment.external_id w.db) payment.status)
chosen_settled true payment w w' v b h = upserted_settled payment w w' v h
chosen_settled false payment w w' v b h = cc

module _ (p : ApplePaymentProvider) (transaction : AppleTransactionPayload) where
  abbrev pub token : Text
  token = trim_space transaction.app_account_token

  recorded :
      (status : SubscriptionStatus) (sold : Product) (w w' : World)
      → HasPayments w.db
      → record_transaction p transaction status sold w ≡ (ok tt, w')
      → w'.db.subscriptions ≡ w.db.subscriptions
  unfolding record_transaction
  recorded status sold w w' v h =
      chosen_leaves (not (is_empty transaction.transaction_id)) _ w w' v h

  -- The payment of a transaction with an id, once it has been recorded.
  pub recorded_settled :
      (status : SubscriptionStatus) (sold : Product) (w w' : World)
      → HasPayments w.db
      → is_empty transaction.transaction_id ≡ false
      → record_transaction p transaction status sold w ≡ (ok tt, w')
      → (x : PaymentEvent) × (payment_of apple transaction.transaction_id w'.db ≡ some x)
        × (x.status
            ≡ settled
                (payment_of apple transaction.transaction_id w.db)
                (apple_payment_status status))
  unfolding record_transaction
  recorded_settled status sold w w' v n h =
      chosen_settled (not (is_empty transaction.transaction_id)) _ w w' v (rw n refl) h

  -- The calls of a `keep_transaction` that has returned.
  pub kept_calls :
      (kind : Text) (renewal : Option AppleRenewalPayload) (w w' : World)
      → keep_transaction p transaction kind renewal w ≡ (ok tt, w')
      → (a : SubscriptionStatus × Bool) × (sold : Product) × (w1 : World) × (with_renewal w.clock
            transaction renewal
            (apple_subscription_status kind transaction w.clock)
          ≡ ok a)
        × (upsert_subscription (apple_subscription p transaction a.0 a.1 sold) w ≡ (ok tt, w1))
        × (record_transaction p transaction a.0 sold w1 ≡ (ok tt, w'))
  unfolding keep_transaction
  kept_calls kind renewal w w' h =
      let (now, w1, read, h1) = bind_returns time_now _ w tt w' h in
      let (clock, same) = time_now_returns w w1 now read in
      let (a, told, h2) = from_bind_returns _ _ w1 tt w' h1 in
      let (sold, listed, h3) = from_bind_returns _ _ w1 tt w' h2 in
      let (i, w2, upserted, h4) =
        bind_returns (upsert_subscription (apple_subscription p transaction a.0 a.1 sold)) _ w1 tt
          w' h3 in
      (
        a,
        sold,
        w2,
        subst
            (λ t.
              with_renewal t transaction renewal (apple_subscription_status kind transaction t)
              ≡ ok a)
            (sym clock) told,
        subst
            (λ x.
              upsert_subscription (apple_subscription p transaction a.0 a.1 sold) x ≡ (ok tt, w2))
            (sym same) upserted,
        h4,
      )

  -- What a transaction with an account token leaves, once it has been kept under a status: the
  -- columns of its subscription, and the status of its payment, if it has an id.
  abbrev pub Keeps : SubscriptionStatus → World → World → Type 0
  Keeps status w w' =
      (r : PaymentSubscription) × (subscription_of apple transaction.original_transaction_id w'.db
        ≡ some r)
      × (r.identity_id ≡ token)
      × (r.status ≡ status)
      × (r.current_period_end ≡ apple_milliseconds_time transaction.expires_date)
      × (is_empty transaction.transaction_id ≡ false
          → (x : PaymentEvent) × (payment_of apple transaction.transaction_id w'.db ≡ some x)
            × (x.status
                ≡ settled (payment_of apple transaction.transaction_id w.db)
                    (apple_payment_status status)))

  pub keep_transaction-Keeps :
      (kind : Text) (renewal : Option AppleRenewalPayload) (w w' : World)
      → HasSubscriptions w.db
      → HasPayments w.db
      → is_empty token ≡ false
      → keep_transaction p transaction kind renewal w ≡ (ok tt, w')
      → (status : SubscriptionStatus) × (cancel : Bool) × (with_renewal w.clock transaction renewal
            (apple_subscription_status kind transaction w.clock)
          ≡ ok (status, cancel))
        × Keeps status w w'
  unfolding apple_subscription
  keep_transaction-Keeps kind renewal w w' v u g h =
      let (a, sold, w1, told, upserted, reported) = kept_calls kind renewal w w' h in
      let (r, found, identity, status, until) = upserted_owned _ w w1 v g upserted in
      let same = subscription_leaves _ w w1 v upserted in
      let u1 = subst (λ t. HasPayments (record w1.db { payments = t })) (sym same) u in
      (
        a.0,
        a.1,
        told,
        (
          r,
          subst
              (λ t.
                subscription_of apple transaction.original_transaction_id
                  (record w'.db { subscriptions = t })
                ≡ some r)
              (sym (recorded a.0 sold w1 w' u1 reported)) found,
          identity,
          status,
          until,
          λ n.
              let (x, stored, settles) = recorded_settled a.0 sold w1 w' u1 n reported in
              (
                x,
                stored,
                settles
                    ∙ ap
                        (λ t.
                          settled
                            (payment_of apple transaction.transaction_id
                              (record w1.db { payments = t }))
                            (apple_payment_status a.0))
                        same,
              ),
        ),
      )
