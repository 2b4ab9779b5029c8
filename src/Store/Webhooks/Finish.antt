-- ===== src/Store/Webhooks/Finish.antt =====
-- What `FinishWebhook` and `MarkWebhookForRetry` do to the row of their event, on every branch.
use procyon_modules.Base.{
  ◌≡◌, refl, sym, ◌∙◌, Bool, true, false, ◌&&◌, Option, none, some, arith, inl, inr, ◌⊎◌,
  if◌then◌else◌,
}
use procyon_modules.Base.Text.{Text, ◌==◌}
use procyon_modules.Models.{Time, PaymentWebhookEvent, is_failed}
use procyon_modules.Models.Errors.{Sentinel, Error, database, sentinel}
use procyon_modules.Exec.{
  Result, ok, err, World, Db, ◌>>=◌, next_request, pure, raise, statement, time_now,
}
use procyon_modules.Exec.Rules.{at_pure, at_raise, at_if, at_bind_statement}
use procyon_modules.Store.Table.Laws.{alter, accepts}
use procyon_modules.Store.Webhooks.{
  is_event, update_webhooks, is_held, finished, finish_webhook, marked, mark_webhook_for_retry,
}
use procyon_modules.Store.Keyed.Laws.{at_every_key, at_no_key}
use procyon_modules.Store.Webhooks.Keys.{row_of, IsKeyed, KeepsKey}
use procyon_modules.Store.Webhooks.Rows.{Updated, update_webhooks-Updated}

-- No row of a webhook has changed, nor any other table.
pub record SameRows (db db' : Db) : Type 0 where
  pub rows : (p e : Text) → row_of p e db' ≡ row_of p e db
  pub payments : db'.payments ≡ db.payments
  pub subscriptions : db'.subscriptions ≡ db.subscriptions
  pub keyed : IsKeyed db'

-- The outcome of a call that changes the row of one event by `f` where `g` accepts it, and answers
-- `missing` where not, as a predicate of its result.
unfoldable pub Changes :
    Text
    → Text
    → (PaymentWebhookEvent → Bool)
    → (PaymentWebhookEvent → PaymentWebhookEvent)
    → Sentinel
    → World
    → Result (Unit {0}) × World
    → Type 0
Changes p e g f missing w (err x, w') =
    SameRows w.db w'.db
    × (((text : Text) × (x ≡ database text))
        ⊎ ((x ≡ sentinel missing) × (accepts g (row_of p e w.db) ≡ false)))
Changes p e g f missing w (ok _, w') =
    (accepts g (row_of p e w.db) ≡ true)
    × ((p' e' : Text)
        → row_of p' e' w'.db
          ≡ (if p == p' && e == e' then alter f (row_of p e w.db) else row_of p' e' w.db))
    × (w'.db.payments ≡ w.db.payments)
    × (w'.db.subscriptions ≡ w.db.subscriptions)
    × IsKeyed w'.db

alter_accepted :
    (g : PaymentWebhookEvent → Bool) (f : PaymentWebhookEvent → PaymentWebhookEvent)
    (o : Option PaymentWebhookEvent)
    → alter (λ r. if g r then f r else r) o ≡ (if accepts g o then alter f o else o)
alter_accepted g f none = refl
alter_accepted g f (some r) = ground arith

module _ (f : PaymentWebhookEvent → PaymentWebhookEvent) (k : KeepsKey f) (p e : Text)
    (g : PaymentWebhookEvent → Bool) (missing : Sentinel) (w : World) (u : IsKeyed w.db) where
  abbrev updated_db : Bool × Db
  updated_db = update_webhooks (λ r. is_event p e r && g r) f w.db

  changed : Updated p e g f w.db updated_db.0 updated_db.1
  changed = update_webhooks-Updated f k p e g w.db u

  failed_case : (text : Text) → Changes p e g f missing w (err (database text), next_request w)
  unfolding Changes
  failed_case text = (
    record { rows = λ p' e'. refl; payments = refl; subscriptions = refl; keyed = u },
    inl (text, refl),
  )

  hit_case :
      (w' : World)
      → w'.db ≡ updated_db.1
      → updated_db.0 ≡ true
      → Changes p e g f missing w (ok tt, w')
  unfolding Changes
  hit_case w' d h = rw d (
    sym changed.hits ∙ h,
    at_every_key (λ a b. row_of a b w.db) (λ a b. row_of a b updated_db.1) p e
        (alter f (row_of p e w.db))
        (changed.row ∙ alter_accepted g f (row_of p e w.db) ∙ rw (← changed.hits, h))
        changed.others,
    changed.payments,
    changed.subscriptions,
    changed.keyed,
  )

  miss_case :
      (w' : World)
      → w'.db ≡ updated_db.1
      → updated_db.0 ≡ false
      → Changes p e g f missing w (err (sentinel missing), w')
  unfolding Changes
  miss_case w' d h = rw d (
    record {
      rows =
          at_no_key (λ a b. row_of a b w.db) (λ a b. row_of a b updated_db.1) p e
            (changed.row ∙ alter_accepted g f (row_of p e w.db) ∙ rw (← changed.hits, h))
            changed.others;
      payments = changed.payments;
      subscriptions = changed.subscriptions;
      keyed = changed.keyed;
    },
    inr (refl, sym changed.hits ∙ h),
  )

  pub update-Changes : Changes p e g f missing w (
      (statement (update_webhooks (λ r. is_event p e r && g r) f) >>= λ updated.
      if updated then pure tt else raise (sentinel missing))
        w)
  update-Changes = at_bind_statement P _ _ w failed_case (
      at_if P _ _ _ _ (λ h. at_pure P _ _ (hit_case _ refl h))
        (λ h. at_raise P _ _ (miss_case _ refl h)))
    where
      P : Result (Unit {0}) × World → Type 0
      P = Changes p e g f missing w

pub finished-KeepsKey :
    (now : Time) (process_err : Option Error) → KeepsKey (finished now process_err)
unfolding finished
finished-KeepsKey now none = record { keeps_first = λ r. refl; keeps_second = λ r. refl }
finished-KeepsKey now (some x) = record { keeps_first = λ r. refl; keeps_second = λ r. refl }

-- `FinishWebhook` returns nil only to the worker whose lease is on the row while it is being
-- processed: then it writes `finished` there and nothing else. Otherwise no row changes, and a
-- worker that does hold the lease fails only by the driver's error.
pub finish_webhook-Changes :
    (p e lease_id : Text) (process_err : Option Error) (w : World)
    → IsKeyed w.db
    → Changes p e
        (is_held lease_id)
        (finished w.clock process_err)
        Sentinel.webhook_lease_lost
        w
        (finish_webhook p e lease_id process_err w)
unfolding finish_webhook time_now ◌>>=◌
finish_webhook-Changes p e lease_id process_err w u =
    update-Changes (finished w.clock process_err) (finished-KeepsKey w.clock process_err) p e
      (is_held lease_id) Sentinel.webhook_lease_lost w u

marked-KeepsKey : (now : Time) → KeepsKey (marked now)
unfolding marked
marked-KeepsKey now = record { keeps_first = λ r. refl; keeps_second = λ r. refl }

-- With unique keys, `MarkWebhookForRetry` changes only the row of its event, and only if that has
-- failed, and then writes the columns of `marked`; without such a row it reports that no record was
-- found, and a failure of the driver leaves the row.
pub mark_webhook_for_retry-Changes :
    (p e : Text) (w : World)
    → IsKeyed w.db
    → Changes p e
        (λ r. is_failed r.status)
        (marked w.clock)
        Sentinel.record_not_found
        w
        (mark_webhook_for_retry p e w)
unfolding mark_webhook_for_retry time_now ◌>>=◌
mark_webhook_for_retry-Changes p e w u =
    update-Changes (marked w.clock) (marked-KeepsKey w.clock) p e (λ r. is_failed r.status)
      Sentinel.record_not_found w u
