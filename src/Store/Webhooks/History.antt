-- ===== src/Store/Webhooks/History.antt =====
-- Histories of the webhook table: the calls of store.go that any number of workers make, in the
-- order in which the database serves them, each at the time that its worker reads.
pub mod Effect
pub mod Leases
pub mod Completion
pub mod Lifecycle
use procyon_modules.Base.{
  ℕ, ◌+◌, Bool, true, false, ◌&&◌, Option, none, some, List, [], ◌∷◌, if◌then◌else◌,
}
use procyon_modules.Base.Int.{ℤ}
use procyon_modules.Base.Text.{Text, ◌==◌}
use procyon_modules.Models.{Time, PaymentWebhookEvent}
use procyon_modules.Models.Errors.{Error}
use procyon_modules.Exec.{Result, ok, err, World, Exec, pure, ◌>>=◌, ◌>>◌}
use procyon_modules.Store.Webhooks.{
  claim_webhook, finish_webhook, mark_webhook_for_retry, cleanup_webhook_payloads, is_event,
}

pub data Call : Type 0 where
  claims : PaymentWebhookEvent → Call
  finishes : Text → Text → Text → Option Error → Call
  marks : Text → Text → Call
  cleans : Time → Call

abbrev pub is_granted : Result (Text × Bool) → Bool
is_granted (ok (lease_id, granted)) = granted
is_granted (err e) = false

-- Every worker claims for the one configured lease.
module _ (lease : ℤ) where
  -- The world after a call at time `t`.
  unfoldable pub after : Time × Call → World → World
  after (t, claims event) w = (claim_webhook event lease (record w { clock = t })).1
  after (t, finishes p e lease_id process_err) w =
      (finish_webhook p e lease_id process_err (record w { clock = t })).1
  after (t, marks p e) w = (mark_webhook_for_retry p e (record w { clock = t })).1
  after (t, cleans before) w = (cleanup_webhook_payloads before (record w { clock = t })).1

  unfoldable pub run : List (Time × Call) → World → World
  run [] w = w
  run (c ∷ cs) w = run cs (after c w)

  -- Has the call granted a lease on the event `e` of provider `p`?
  unfoldable pub grants : Text → Text → Time × Call → World → Bool
  grants p e (t, claims event) w =
      (event.provider == p && event.event_id == e)
      && is_granted (claim_webhook event lease (record w { clock = t })).0
  grants p e (t, finishes p' e' lease_id process_err) w = false
  grants p e (t, marks p' e') w = false
  grants p e (t, cleans before) w = false

  -- How many leases on the event a history grants.
  unfoldable pub count_grants : Text → Text → List (Time × Call) → World → ℕ
  count_grants p e [] w = 0
  count_grants p e (c ∷ cs) w = (if grants p e c w then 1 else 0) + count_grants p e cs (after c w)
