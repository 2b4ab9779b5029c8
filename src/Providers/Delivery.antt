-- ===== src/Providers/Delivery.antt =====
-- The end of every `HandleWebhook`: an event whose signature has been checked is claimed under the
-- lease, processed, and finished.
pub mod Once
use procyon_modules.Base.{
  ◌≡◌, refl, sym, subst, ◌∙◌, Bool, false, Option, none, some, if◌then◌else◌,
}
use mathlib.Core.Bool.{false≢true}
use procyon_modules.Base.Int.{ℤ}
use procyon_modules.Base.Text.{Text, eq_refl}
use procyon_modules.Models.{PaymentWebhookEvent}
use procyon_modules.Models.Errors.{Error}
use procyon_modules.Exec.{Result, ok, err, World, Exec, pure, ◌>>=◌}
use procyon_modules.Exec.Rules.{at_bind, at_if, at_pure}
use procyon_modules.Store.Webhooks.{claim_webhook, finish_webhook, is_claimable}
use procyon_modules.Store.Webhooks.Keys.{row_of, IsKeyed}
use procyon_modules.Store.Webhooks.Claim.{Claims, claim_webhook-Claims}

-- The error of the processing, if any.
abbrev pub error_of : Result (Unit {0}) → Option Error
error_of (ok u) = none
error_of (err e) = some e

-- `processErr` where there is one, and else the error of `FinishWebhook`.
abbrev pub first_error : Result (Unit {0}) → Result (Unit {0}) → Result (Unit {0})
first_error (ok u) finished = finished
first_error (err e) finished = err e

-- The event is processed, then finished with the outcome.
unfoldable pub process_claimed : PaymentWebhookEvent → Text → Exec (Unit {0}) → Exec (Unit {0})
process_claimed event lease_id process w =
    let (r, w') = process w in
    let (f, w'') = finish_webhook event.provider event.event_id lease_id (error_of r) w' in
    (first_error r f, w'')

unfoldable pub deliver : ℤ → PaymentWebhookEvent → Exec (Unit {0}) → Exec (Unit {0})
deliver lease event process = do
  (lease_id, claimed) ← claim_webhook event lease
  if claimed then process_claimed event lease_id process else pure tt

-- No table has changed but in the rows of webhooks of other events; the row of this one is the same.
abbrev pub IsUntouched : PaymentWebhookEvent → World → World → Type 0
IsUntouched event w w' =
    (row_of event.provider event.event_id w'.db ≡ row_of event.provider event.event_id w.db)
    × (w'.db.payments ≡ w.db.payments)
    × (w'.db.subscriptions ≡ w.db.subscriptions)

unfoldable pub Leaves : PaymentWebhookEvent → World → Result (Unit {0}) × World → Type 0
Leaves event w (r, w') = IsUntouched event w w'

module _ (lease : ℤ) (event : PaymentWebhookEvent) (w : World) where
  claim_failed :
      (e : Error) (w' : World) → Claims event lease w (err e, w') → Leaves event w (err e, w')
  unfolding Claims Leaves
  claim_failed e w' h = rw h (refl, refl, refl)

  claim_refused :
      (r : PaymentWebhookEvent) (lease_id : Text) (granted : Bool) (w' : World)
      → row_of event.provider event.event_id w.db ≡ some r
      → is_claimable w.clock lease r ≡ false
      → Claims event lease w (ok (lease_id, granted), w')
      → (granted ≡ false) × Leaves event w (ok tt, w')
  unfolding Claims Leaves
  claim_refused r lease_id granted w' found busy h = (
    h.0 ∙ rw (found, busy) refl,
    (
      h.1 event.provider event.event_id
          ∙ rw (eq_refl event.provider, eq_refl event.event_id, found, busy) refl,
      h.2,
      h.3,
    ),
  )

  -- An event that has been processed, or whose lease is running, is not processed again, whatever
  -- the processing would do: a delivery of it leaves its row, the payments and the subscriptions
  -- alone.
  pub deliver-Leaves :
      (process : Exec (Unit {0})) (r : PaymentWebhookEvent)
      → IsKeyed w.db
      → row_of event.provider event.event_id w.db ≡ some r
      → is_claimable w.clock lease r ≡ false
      → Leaves event w (deliver lease event process w)
  unfolding deliver
  deliver-Leaves process r u found busy =
      at_bind P (claim_webhook event lease) _ w (λ e w' h. claim_failed e w' (claimed _ h))
        (λ a w' h.
          let (refused, left) = claim_refused r a.0 a.1 w' found busy (claimed _ h) in
          at_if P a.1 _ _ w' (λ g. absurd (false≢true (sym refused ∙ g)))
            (λ g. at_pure P tt w' left))
    where
      P : Result (Unit {0}) × World → Type 0
      P = Leaves event w

      claimed :
          (res : Result (Text × Bool) × World)
          → claim_webhook event lease w ≡ res
          → Claims event lease w res
      claimed res h = subst (Claims event lease w) h (claim_webhook-Claims event lease w u)
