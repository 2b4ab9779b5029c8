-- ===== src/Store/Webhooks.antt =====
-- The webhook operations of store.go: the claim of an event under a lease, and its end.
pub mod Keys
pub mod Rows
pub mod Claim
pub mod Finish
pub mod History
use procyon_modules.Base.{
  ℕ, suc, ◌+◌, ◌/◌, ◌%◌, Bool, true, false, ◌&&◌, ◌||◌, Option, none, some, List, [], ◌∷◌, ◌++◌,
  ltb, if◌then◌else◌, take, select,
}
use procyon_modules.Base.Int.{ℤ, pos_part, neg_part}
use procyon_modules.Base.Text.{Text, ◌==◌}
use procyon_modules.Models.{
  Time, WebhookStatus, PaymentWebhookEvent, is_failed, is_processing, is_succeeded,
}
use procyon_modules.Models.Errors.{Sentinel, Error, sentinel, error_text}
use procyon_modules.Exec.{Db, Exec, pure, raise, ◌>>=◌, ◌>>◌, time_now, statement, random_bytes}
use procyon_modules.Store.Keyed.{is_key}
use procyon_modules.Store.Table.{find, update_where, count, order_desc, page}

-- The columns of the unique index.
abbrev pub provider_of : PaymentWebhookEvent → Text
provider_of r = r.provider

abbrev pub event_of : PaymentWebhookEvent → Text
event_of r = r.event_id

-- `provider = ? AND event_id = ?`
abbrev pub is_event : Text → Text → PaymentWebhookEvent → Bool
is_event = is_key provider_of event_of

abbrev digit : ℕ → ℕ
digit d = if ltb d 10 then 48 + d else 87 + d

-- `hex.EncodeToString`
unfoldable pub hex : List ℕ → Text
hex [] = []
hex (b ∷ bs) = digit (b / 16) ∷ digit (b % 16) ∷ hex bs

unfoldable pub webhook_lease_id : Exec Text
webhook_lease_id = do raw ← random_bytes 16; pure (hex raw)

-- `INSERT … ON CONFLICT (provider, event_id) DO NOTHING`, and whether a row was written.
unfoldable pub create_webhook : Time → PaymentWebhookEvent → Db → Bool × Db
unfolding find
create_webhook now event db =
    elim (find (is_event event.provider event.event_id) db.webhooks.rows) [
      | some r ↦ (false, db)
      | none ↦ (
        true,
        record db {
          webhooks = record {
            rows =
                db.webhooks.rows
                ++ record event { id = db.webhooks.next_id; created_at = now; updated_at = now }
                  ∷ [];
            next_id = suc db.webhooks.next_id;
          };
        },
      )
    ]

-- `processing_started_at < cutoff`, with `cutoff = now - lease`: never of a NULL.
abbrev pub started_before : Option Time → Time → ℤ → Bool
started_before none now lease = false
started_before (some t) now lease = ltb (t + pos_part lease) (now + neg_part lease)

-- `status = FAILED OR (status = PROCESSING AND processing_started_at < cutoff)`
unfoldable pub is_claimable : Time → ℤ → PaymentWebhookEvent → Bool
is_claimable now lease r =
    is_failed r.status
    || (is_processing r.status && started_before r.processing_started_at now lease)

-- The columns that a claim of an existing row sets.
unfoldable pub claimed :
    Time → Text → PaymentWebhookEvent → PaymentWebhookEvent → PaymentWebhookEvent
claimed now lease_id event r = record r {
  status = WebhookStatus.processing;
  processing_started_at = some now;
  last_attempt_at = some now;
  last_error = [];
  payload = event.payload;
  signature = event.signature;
  event_type = event.event_type;
  lease_id = lease_id;
  attempts = r.attempts + 1;
  updated_at = now;
}

-- `UPDATE` of the webhook rows, and whether `RowsAffected` is above 0.
unfoldable pub update_webhooks :
    (PaymentWebhookEvent → Bool) → (PaymentWebhookEvent → PaymentWebhookEvent) → Db → Bool × Db
unfolding update_where count
update_webhooks p f db = (
  ltb 0 (count p db.webhooks.rows),
  record db { webhooks = record db.webhooks { rows = update_where p f db.webhooks.rows } },
)

-- The row that `ClaimWebhook` tries to insert.
unfoldable pub first_claim : Time → Text → PaymentWebhookEvent → PaymentWebhookEvent
first_claim now lease_id event = record event {
  status = WebhookStatus.processing;
  attempts = 1;
  processing_started_at = some now;
  last_attempt_at = some now;
  lease_id = lease_id;
}

-- `ClaimWebhook`: the lease and whether the event was claimed.
unfoldable pub claim_webhook : PaymentWebhookEvent → ℤ → Exec (Text × Bool)
claim_webhook event lease = do
  now ← time_now
  lease_id ← webhook_lease_id
  created ← statement (create_webhook now (first_claim now lease_id event))
  if created then pure (lease_id, true) else do
    updated ← statement (
        update_webhooks (λ r. is_event event.provider event.event_id r && is_claimable now lease r)
          (claimed now lease_id event))
    pure (if updated then (lease_id, true) else ([], false))

-- `status = PROCESSING AND lease_id = ?`
unfoldable pub is_held : Text → PaymentWebhookEvent → Bool
is_held lease_id r = is_processing r.status && r.lease_id == lease_id

-- The columns that the end of the processing sets; an error's text is cut to 4096 bytes.
unfoldable pub finished : Time → Option Error → PaymentWebhookEvent → PaymentWebhookEvent
finished now none r = record r {
  status = WebhookStatus.succeeded;
  processed_at = some now;
  processing_started_at = none;
  last_error = [];
  updated_at = now;
}
finished now (some e) r = record r {
  status = WebhookStatus.failed;
  processing_started_at = none;
  last_error = take 4096 (error_text e);
  updated_at = now;
}

-- `FinishWebhook`
unfoldable pub finish_webhook : Text → Text → Text → Option Error → Exec (Unit {0})
finish_webhook provider event_id lease_id process_err = do
  now ← time_now
  updated ← statement (
      update_webhooks (λ r. is_event provider event_id r && is_held lease_id r)
        (finished now process_err))
  if updated then pure tt else raise (sentinel Sentinel.webhook_lease_lost)

-- What `First` returns: a row, or gorm's "not found".
unfoldable pub or_not_found : {A : Type 0} → Option A → Exec A
or_not_found none = raise (sentinel Sentinel.record_not_found)
or_not_found (some a) = pure a

-- `GetWebhook`
unfoldable pub get_webhook : Text → Text → Exec PaymentWebhookEvent
get_webhook provider event_id = do
  found ← statement (λ db. (find (is_event provider event_id) db.webhooks.rows, db))
  or_not_found found

-- The columns that an accepted retry sets.
unfoldable pub marked : Time → PaymentWebhookEvent → PaymentWebhookEvent
marked now r = record r { processing_started_at = none; updated_at = now }

-- `MarkWebhookForRetry`
unfoldable pub mark_webhook_for_retry : Text → Text → Exec (Unit {0})
mark_webhook_for_retry provider event_id = do
  now ← time_now
  updated ←
      statement
        (update_webhooks (λ r. is_event provider event_id r && is_failed r.status) (marked now))
  if updated then pure tt else raise (sentinel Sentinel.record_not_found)

-- `ListFailedWebhooks`
unfoldable pub list_failed_webhooks : ℤ → ℤ → Exec (List PaymentWebhookEvent)
list_failed_webhooks limit offset = statement (λ db. (
  page limit offset
      (order_desc (λ r. r.updated_at) (select (λ r. is_failed r.status) db.webhooks.rows)),
  db,
))

-- `processed_at < ?`: never of a NULL.
abbrev processed_before : Option Time → Time → Bool
processed_before none before = false
processed_before (some t) before = ltb t before

unfoldable pub is_expired : Time → PaymentWebhookEvent → Bool
is_expired before r = is_succeeded r.status && processed_before r.processed_at before

-- The columns that a clean-up sets.
unfoldable pub cleaned : Time → PaymentWebhookEvent → PaymentWebhookEvent
cleaned now r = record r { payload = []; signature = []; updated_at = now }

-- `CleanupWebhookPayloads`
unfoldable pub cleanup_webhook_payloads : Time → Exec (Unit {0})
cleanup_webhook_payloads before = do
  now ← time_now
  statement (update_webhooks (is_expired before) (cleaned now))
  pure tt
