-- ===== src/Store/Answers.antt =====
-- The answers of the calls of store.go where no statement fails.
use procyon_modules.Base.{
  ℕ, ◌≡◌, ◌≢◌, refl, Bool, true, false, ◌&&◌, Option, none, some, List, [], if◌then◌else◌,
}
use procyon_modules.Base.Int.{ℤ}
use procyon_modules.Base.Text.{Text}
use procyon_modules.Models.{Time, PaymentEvent, PaymentWebhookEvent, PaymentSubscription}
use procyon_modules.Models.Errors.{Sentinel, Error, sentinel}
use procyon_modules.Exec.{Result, ok, err, World, Db, Exec, ◌>>=◌, next_request, pure}
use procyon_modules.Exec.Rules.{at_pure, at_raise, at_if, at_bind_now}
use procyon_modules.Exec.Reliable.{
  IsReliable, HasEntropy, at_statement_done, at_bind_statement_done, at_bind_drawn, Settles,
  Settles-ok, Settles-err, at_transaction_done,
}
use procyon_modules.Store.Table.Laws.{accepts}
use procyon_modules.Store.Webhooks.{
  create_webhook, first_claim, webhook_lease_id, hex, claim_webhook, is_event, update_webhooks,
  is_held, finished, finish_webhook,
}
use procyon_modules.Store.Webhooks.Keys.{row_of, IsKeyed}
use procyon_modules.Store.Webhooks.Claim.{is_free, inserted_free, updated_free}
use procyon_modules.Store.Webhooks.Rows.{update_webhooks-Updated}
use procyon_modules.Store.Webhooks.Finish.{finished-KeepsKey}
use procyon_modules.Store.Payments.{upsert_payment, dated, find_payment, write_payment}
use procyon_modules.Store.Payments.Upsert.{payment_of}
use procyon_modules.Store.Subscriptions.{
  upsert_subscription, create_subscription, find_subscription, write_subscription, conflicts,
}
use procyon_modules.Store.Subscriptions.Upsert.{
  subscription_of, inserted_none, insert_old, insert_found,
}

-- The result of a call.
unfoldable Is : Result (Unit {0}) → Result (Unit {0}) × World → Type 0
Is expected r = r.0 ≡ expected

Is-refl : (r : Result (Unit {0})) (w : World) → Is r (r, w)
unfolding Is
Is-refl r w = refl

at_bind_lease_done :
    {A : Type 0} (P : Result A × World → Type 0) (f : Text → Exec A) (w : World) (raw : List ℕ)
    → w.entropy w.requests 16 ≡ some raw
    → P (f (hex raw) (next_request w))
    → P ((webhook_lease_id >>= f) w)
unfolding webhook_lease_id ◌>>=◌
at_bind_lease_done P f w raw h done =
    at_bind_drawn (λ r. P (elim r.0 [ ok a ↦ f a r.1 | err e ↦ (err e, r.1) ])) 16
      (λ raw. pure (hex raw)) w raw h done

module _ (event : PaymentWebhookEvent) (lease : ℤ) (w : World) (u : IsKeyed w.db) where
  -- A claim's answer, where the random source yields `raw`.
  abbrev answer : List ℕ → Text × Bool
  answer raw =
      if is_free w.clock lease (row_of event.provider event.event_id w.db)
      then (hex raw, true)
      else ([], false)

  answered :
      (raw : List ℕ)
      → IsReliable w
      → w.entropy w.requests 16 ≡ some raw
      → (claim_webhook event lease w).0 ≡ ok (answer raw)
  unfolding claim_webhook
  answered raw reliable drawn = at_bind_now P _ w (
      at_bind_lease_done P _ w raw drawn (
        at_bind_statement_done P _ _ (next_request w) (reliable _) (
          at_if P (create_webhook w.clock (first_claim w.clock (hex raw) event) w.db).0 _ _ _
            (λ h. at_pure P _ _ (rw (inserted_free event lease w u (hex raw) h) refl))
            (λ h.
              at_bind_statement_done P _ _ _ (reliable _)
                (at_pure P _ _ (rw (updated_free event lease w u (hex raw) h) refl))))))
    where
      P : Result (Text × Bool) × World → Type 0
      P r = r.0 ≡ ok (answer raw)

  -- Where no event has two rows, and statements and the random source do not fail, `ClaimWebhook`
  -- returns: it grants the id that it draws exactly when the event has no row, or one that has
  -- failed or whose lease has run out, and else it answers the empty id and "not granted".
  pub claim_webhook_answers :
      IsReliable w
      → HasEntropy w
      → (raw : List ℕ) × (w.entropy w.requests 16 ≡ some raw)
        × ((claim_webhook event lease w).0
            ≡ ok (
                if is_free w.clock lease (row_of event.provider event.event_id w.db)
                then (hex raw, true)
                else ([], false)))
  claim_webhook_answers reliable entropy =
      let (raw, drawn) = entropy w.requests 16 in (raw, drawn, answered raw reliable drawn)

-- Where statements do not fail, `FinishWebhook` succeeds exactly for the worker whose lease is on
-- the event while it is being processed, and tells every other one that its lease was lost.
pub finish_webhook_answers :
    (p e lease_id : Text) (process_err : Option Error) (w : World)
    → IsReliable w
    → IsKeyed w.db
    → (finish_webhook p e lease_id process_err w).0 ≡ (
        if accepts (is_held lease_id) (row_of p e w.db)
        then ok tt
        else err (sentinel Sentinel.webhook_lease_lost))
unfolding finish_webhook Is
finish_webhook_answers p e lease_id process_err w reliable u = at_bind_now P _ w (
    at_bind_statement_done P _ _ w (reliable w.requests) (
      at_if P
        (update_webhooks (λ r. is_event p e r && is_held lease_id r) (finished w.clock process_err)
          w.db).0
        _ _ _ (λ h. at_pure P tt _ (rw (← hits, h) (Is-refl (ok tt) w)))
        (λ h. at_raise P (sentinel Sentinel.webhook_lease_lost) _ (rw (← hits, h) (Is-refl _ w)))))
  where
    P : Result (Unit {0}) × World → Type 0
    P = Is (
        if accepts (is_held lease_id) (row_of p e w.db)
        then ok tt
        else err (sentinel Sentinel.webhook_lease_lost))

    hits :
        (update_webhooks
          (λ r. is_event p e r && is_held lease_id r)
          (finished w.clock process_err)
          w.db).0
        ≡ accepts (is_held lease_id) (row_of p e w.db)
    hits =
        (update_webhooks-Updated (finished w.clock process_err)
          (finished-KeepsKey w.clock process_err) p e (is_held lease_id) w.db u).hits

payment_written :
    (db : Db) (now : Time) (o : Option PaymentEvent) (payment : PaymentEvent) (w : World)
    → IsReliable w
    → Settles (Is (ok tt)) db (write_payment now (dated now payment) o w)
unfolding write_payment
payment_written db now none payment w reliable =
    at_statement_done (Settles (Is (ok tt)) db) _ w (reliable _)
      (Settles-ok (Is (ok tt)) db _ _ (reliable _) (Is-refl (ok tt) _))
payment_written db now (some r) payment w reliable =
    at_statement_done (Settles (Is (ok tt)) db) _ w (reliable _)
      (Settles-ok (Is (ok tt)) db _ _ (reliable _) (Is-refl (ok tt) _))

abbrev taken : Result (Unit {0})
taken = err (sentinel Sentinel.ownership_conflict)

subscription_written :
    (db : Db) (now : Time) (s : PaymentSubscription) (o : Option PaymentSubscription) (w : World)
    → IsReliable w
    → o ≢ none
    → Settles
        (Is (if accepts (conflicts s) o then taken else ok tt))
        db
        (write_subscription now s o w)
unfolding write_subscription
subscription_written db now s none w reliable found = absurd (found refl)
subscription_written db now s (some r) w reliable found =
    at_if P (conflicts s r) _ _ w
      (λ h. at_raise P _ w (Settles-err Q db _ w (rw h (Is-refl taken _))))
      λ h.
        at_statement_done P _ w (reliable _)
          (Settles-ok Q db _ _ (reliable _) (rw h (Is-refl (ok tt) _)))
  where
    Q : Result (Unit {0}) × World → Type 0
    Q = Is (if conflicts s r then taken else ok tt)

    P : Result (Unit {0}) × World → Type 0
    P = Settles Q db

-- Where statements do not fail, `UpsertPayment` succeeds.
pub upsert_payment_returns :
    (payment : PaymentEvent) (w : World) → IsReliable w → (upsert_payment payment w).0 ≡ ok tt
unfolding upsert_payment find_payment Is
upsert_payment_returns payment w reliable = at_bind_now P _ w (
    at_transaction_done P _ w (reliable w.requests) (
      at_bind_statement_done (Settles P w.db) _ _ (next_request w) (reliable _) (
        payment_written w.db w.clock (payment_of payment.provider payment.external_id w.db) payment
          _ reliable)))
  where
    P : Result (Unit {0}) × World → Type 0
    P = Is (ok tt)

-- Where statements do not fail, `UpsertSubscription` succeeds, unless the row belongs to another
-- identity, which it reports.
pub upsert_subscription_answers :
    (s : PaymentSubscription) (w : World)
    → IsReliable w
    → (upsert_subscription s w).0 ≡ (
        if accepts (conflicts s) (subscription_of s.provider s.external_subscription_id w.db)
        then err (sentinel Sentinel.ownership_conflict)
        else ok tt)
unfolding upsert_subscription find_subscription Is
upsert_subscription_answers s w reliable = at_bind_now P _ w (
    at_bind_statement_done P _ _ w (reliable _) (
      at_if P (create_subscription w.clock s w.db).0 _ _ _
        (λ c. at_pure P tt _ (rw (inserted_none s w c) refl))
        λ c. at_transaction_done P _ _ (reliable _) (
          at_bind_statement_done (Settles P _) _ _ _ (reliable _) (
            rw (insert_old s w c) (
              subscription_written w.db w.clock s
                (subscription_of s.provider s.external_subscription_id w.db) _ reliable
                (insert_found s w c))))))
  where
    P : Result (Unit {0}) × World → Type 0
    P = Is (
        if accepts (conflicts s) (subscription_of s.provider s.external_subscription_id w.db)
        then err (sentinel Sentinel.ownership_conflict)
        else ok tt)
