-- ===== src/Migrations.antt =====
-- payment-system/migrations.go: the first migration's repair of the webhook rows of older versions.
pub mod Applied
use procyon_modules.Base.{
  ◌≡◌, refl, Bool, true, false, ◌&&◌, ◌||◌, not, Option, none, some, List, [], ◌∷◌, arith, All, ◌⊎◌,
  inl, inr, Bool-cases, Option-cases, ◌+◌,
}
use procyon_modules.Base.Int.{ℤ, pos_part}
use procyon_modules.Base.Text.{is_empty}
use procyon_modules.Models.{
  Time, WebhookStatus, PaymentWebhookEvent, is_failed, is_succeeded, is_processing,
}
use procyon_modules.Models.Errors.{Error}
use procyon_modules.Exec.{Result, ok, err, World, Db, Exec, pure, ◌>>=◌, ◌>>◌, time_now, statement}
use procyon_modules.Exec.Rules.{at_pure, at_bind_statement, at_bind_now}
use procyon_modules.Store.Table.{update_where}
use procyon_modules.Store.Webhooks.{update_webhooks, is_claimable}

-- `IS NOT NULL`
abbrev pub is_set : Option Time → Bool
is_set none = false
is_set (some t) = true

-- The three conditions of the UPDATE statements, where no text is the empty one.
abbrev is_processed : PaymentWebhookEvent → Bool
is_processed r = is_set r.processed_at

abbrev has_error : PaymentWebhookEvent → Bool
has_error r = not (is_set r.processed_at) && not (is_empty r.last_error)

abbrev is_stuck : PaymentWebhookEvent → Bool
is_stuck r =
    not (is_set r.processed_at) && (is_empty r.last_error && not (is_set r.processing_started_at))

-- The columns that they set.
abbrev relabeled : Time → WebhookStatus → PaymentWebhookEvent → PaymentWebhookEvent
relabeled now status r = record r { status = status; updated_at = now }

abbrev restarted : Time → PaymentWebhookEvent → PaymentWebhookEvent
restarted now r = record r { processing_started_at = some r.updated_at; updated_at = now }

-- The UPDATE statements of version 1.
unfoldable pub repair_webhooks : Exec (Unit {0})
repair_webhooks = do
  now ← time_now
  statement (update_webhooks is_processed (relabeled now WebhookStatus.succeeded))
  statement (update_webhooks has_error (relabeled now WebhookStatus.failed))
  statement (update_webhooks is_stuck (restarted now))
  pure tt

-- The row has one of the statuses that the module writes; PROCESSING is the column's default.
abbrev pub has_status : PaymentWebhookEvent → Bool
has_status r = is_succeeded r.status || (is_failed r.status || is_processing r.status)

abbrev pub HasStatuses : Db → Type 0
HasStatuses db = All (λ r. has_status r ≡ true) db.webhooks.rows

-- The event has been processed, or has failed, or is being processed since a known time.
abbrev is_live : PaymentWebhookEvent → Bool
is_live r =
    is_succeeded r.status
    || (is_failed r.status || (is_processing r.status && is_set r.processing_started_at))

-- The event has been processed, or there is a time at which `ClaimWebhook` takes it.
abbrev pub IsLive : ℤ → PaymentWebhookEvent → Type 0
IsLive lease r = (is_succeeded r.status ≡ true) ⊎ ((t : Time) × (is_claimable t lease r ≡ true))

is_live-IsLive : (lease : ℤ) (r : PaymentWebhookEvent) → is_live r ≡ true → IsLive lease r
unfolding is_claimable
is_live-IsLive lease r h = elim (Bool-cases (is_succeeded r.status)) [
  | inl s ↦ inl s
  | inr s ↦ elim (Option-cases r.processing_started_at) [
    | inl n ↦ inr (0, ground (arith, n, h, s))
    | inr (t, n) ↦ inr (t + pos_part lease + 1, ground (arith, n, h, s))
  ]
]

unfoldable pub Repairs : ℤ → Result (Unit {0}) × World → Type 0
Repairs lease (ok u, w) = All (IsLive lease) w.db.webhooks.rows
Repairs lease (err e, w) = Unit

repaired :
    (lease : ℤ) (now : Time) (rows : List PaymentWebhookEvent)
    → All (λ r. has_status r ≡ true) rows
    → All (IsLive lease) (
        update_where is_stuck (restarted now) (
          update_where has_error
            (relabeled now WebhookStatus.failed)
            (update_where is_processed (relabeled now WebhookStatus.succeeded) rows)))
unfolding update_where
repaired lease now [] s = tt
repaired lease now (r ∷ rows) s =
    (is_live-IsLive lease _ (ground (arith, s.0)), repaired lease now rows s.1)

module _ (lease : ℤ) where
  repaired_case :
      (now : Time) (w w' : World)
      → HasStatuses w.db
      → w'.db.webhooks.rows
        ≡ update_where is_stuck (restarted now) (
            update_where has_error (relabeled now WebhookStatus.failed) (
              update_where is_processed (relabeled now WebhookStatus.succeeded) w.db.webhooks.rows))
      → Repairs lease (ok tt, w')
  unfolding Repairs
  repaired_case now w w' s h = rw h (repaired lease now w.db.webhooks.rows s)

  pub failed_case : (e : Error) (w : World) → Repairs lease (err e, w)
  unfolding Repairs
  failed_case e w = tt

  -- Where the rows have statuses of the module and the repair returns, every event that has not been
  -- processed is claimed at some time.
  pub repair_webhooks-Repairs : (w : World) → HasStatuses w.db → Repairs lease (repair_webhooks w)
  unfolding repair_webhooks update_webhooks
  repair_webhooks-Repairs w s = at_bind_now P _ w (
      at_bind_statement P _ _ w (λ text. failed_case _ _)
        (at_bind_statement P _ _ _ (λ text. failed_case _ _)
          (at_bind_statement P _ _ _ (λ text. failed_case _ _)
            (at_pure P tt _ (repaired_case w.clock w _ s refl)))))
    where
      P : Result (Unit {0}) × World → Type 0
      P = Repairs lease
