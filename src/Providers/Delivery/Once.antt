-- ===== src/Providers/Delivery/Once.antt =====
-- An event that has been delivered and processed is not processed by a later delivery.
use procyon_modules.Base.{
  ◌≡◌, refl, sym, ◌∙◌, subst, Bool, true, false, Option, none, some, List, [], ◌∷◌, if◌then◌else◌,
}
use procyon_modules.Base.Int.{ℤ}
use procyon_modules.Base.Text.{Text, eq_refl}
use procyon_modules.Models.{Time, PaymentWebhookEvent}
use procyon_modules.Models.Errors.{Sentinel}
use procyon_modules.Exec.{Result, ok, err, World, Exec, pure}
use procyon_modules.Exec.Rules.{bind_returns}
use procyon_modules.Store.Table.Laws.{accepts, alter}
use procyon_modules.Store.Webhooks.{claim_webhook, finish_webhook, finished, is_claimable, is_held}
use procyon_modules.Store.Webhooks.Keys.{row_of, IsKeyed}
use procyon_modules.Store.Webhooks.Claim.{Claims, claim_webhook-Claims, is_free}
use procyon_modules.Store.Webhooks.Finish.{Changes, finish_webhook-Changes}
use procyon_modules.Store.Webhooks.History.{Call, after, run, count_grants}
use procyon_modules.Store.Webhooks.History.Effect.{Effect, after-Effect}
use procyon_modules.Store.Webhooks.History.Completion.{IsDone, processed_once}
use procyon_modules.Providers.Delivery.{
  deliver, process_claimed, error_of, first_error, Leaves, deliver-Leaves,
}

module _ (lease : ℤ) (event : PaymentWebhookEvent) where
  -- The row of the event.
  abbrev row : World → Option PaymentWebhookEvent
  row w = row_of event.provider event.event_id w.db

  -- The event has a row that is done, and keys are unique.
  abbrev Done : World → Type 0
  Done w = (r : PaymentWebhookEvent) × IsDone lease r (row w) × IsKeyed w.db

  finished-Done :
      (o : Option PaymentWebhookEvent) (lease_id : Text) (now : Time) (w : World)
      → accepts (is_held lease_id) o ≡ true
      → row w ≡ alter (finished now none) o
      → IsKeyed w.db
      → Done w
  unfolding finished
  finished-Done none lease_id now w held e k = cc
  finished-Done (some s) lease_id now w held e k = (
    finished now none s,
    subst (IsDone lease (finished now none s)) (sym e) (refl, refl, refl, refl),
    k,
  )

  finish-Done :
      (lease_id : Text) (w w' : World)
      → IsKeyed w.db
      → finish_webhook event.provider event.event_id lease_id none w ≡ (ok tt, w')
      → Done w'
  unfolding Changes
  finish-Done lease_id w w' k h =
      go _ h (finish_webhook-Changes event.provider event.event_id lease_id none w k)
    where
      go :
          (res : Result (Unit {0}) × World)
          → res ≡ (ok tt, w')
          → Changes event.provider event.event_id
              (is_held lease_id)
              (finished w.clock none)
              Sentinel.webhook_lease_lost
              w
              res
          → Done w'
      go (err e, w1) q c = cc
      go (ok u, w1) q c =
          subst (λ r. Done r.1) q
            (finished-Done (row w) lease_id w.clock w1 c.0
              (c.1 event.provider event.event_id
                ∙ rw (eq_refl event.provider, eq_refl event.event_id) refl)
              c.4)

  process-Done :
      (lease_id : Text) (process : Exec (Unit {0})) (w w' : World)
      → IsKeyed (process w).1.db
      → process_claimed event lease_id process w ≡ (ok tt, w')
      → Done w'
  unfolding process_claimed
  process-Done lease_id process w w' k h = go (process w) k h
    where
      go :
          (res : Result (Unit {0}) × World)
          → IsKeyed res.1.db
          → ◌≡◌ {A = Result (Unit {0}) × World}
              (
                first_error res.0
                    (finish_webhook event.provider event.event_id lease_id
                      (error_of res.0)
                      res.1).0,
                (finish_webhook event.provider event.event_id lease_id (error_of res.0) res.1).1,
              )
              (ok tt, w')
          → Done w'
      go (err e, w1) j q = cc
      go (ok u, w1) j q = finish-Done lease_id w1 w' j q

  -- The processing keeps keys unique, in every world whose payments and subscriptions are these.
  abbrev pub KeepsKeys : World → Exec (Unit {0}) → Type 0
  KeepsKeys w process =
      (v : World)
      → v.db.payments ≡ w.db.payments
      → v.db.subscriptions ≡ w.db.subscriptions
      → IsKeyed v.db
      → IsKeyed (process v).1.db

  module _ (w w' : World) (k : IsKeyed w.db) (free : is_free w.clock lease (row w) ≡ true) where
    claimed-Done :
        (lease_id : Text) (granted : Bool) (process : Exec (Unit {0})) (w1 : World)
        → KeepsKeys w process
        → Claims event lease w (ok (lease_id, granted), w1)
        → (if granted then process_claimed event lease_id process else pure tt) w1 ≡ (ok tt, w')
        → Done w'
    unfolding Claims
    claimed-Done lease_id false process w1 keeps c h = cc
    claimed-Done lease_id true process w1 keeps c h =
        process-Done lease_id process w1 w' (keeps w1 c.2 c.3 c.4) h

    delivered-Done :
        (process : Exec (Unit {0}))
        → KeepsKeys w process
        → deliver lease event process w ≡ (ok tt, w')
        → Done w'
    unfolding deliver
    delivered-Done process keeps h =
        let (a, w1, claim, rest) = bind_returns (claim_webhook event lease) _ w tt w' h in
        claimed-Done a.0 a.1 process w1 keeps
          (subst (Claims event lease w) claim (claim_webhook-Claims event lease w k)) rest

  run-IsKeyed :
      (calls : List (Time × Call)) (w : World) → IsKeyed w.db → IsKeyed (run lease calls w).db
  unfolding run
  run-IsKeyed [] w k = k
  run-IsKeyed ((t, c) ∷ calls) w k =
      let fx : Effect lease event.provider event.event_id t c w =
        after-Effect lease event.provider event.event_id t c w k in
      run-IsKeyed calls (after lease (t, c) w) fx.keyed

  done_unclaimable :
      (r s : PaymentWebhookEvent) (now : Time)
      → IsDone lease r (some s)
      → is_claimable now lease s ≡ false
  unfolding is_claimable
  done_unclaimable r s now d = rw d.0 refl

  left_alone :
      (process : Exec (Unit {0})) (w : World) (r : PaymentWebhookEvent)
      (o : Option PaymentWebhookEvent)
      → IsKeyed w.db
      → row w ≡ o
      → IsDone lease r o
      → Leaves event w (deliver lease event process w)
  left_alone process w r none k e d = absurd d
  left_alone process w r (some s) k e d =
      deliver-Leaves lease event w process s k e (done_unclaimable r s w.clock d)

  -- With unique keys and one lease duration for all claims, once a delivery of an event that could
  -- be claimed has returned without an error, where its processing has kept the keys unique, no
  -- call of the store, whatever the workers do and in whichever order, grants a lease on the event
  -- again; and a delivery of it at any later time leaves its row, the payments and the
  -- subscriptions alone, whatever the processing would do.
  pub delivered_once :
      (w w' : World) (process again : Exec (Unit {0})) (calls : List (Time × Call)) (t : Time)
      → IsKeyed w.db
      → is_free w.clock lease (row_of event.provider event.event_id w.db) ≡ true
      → KeepsKeys w process
      → deliver lease event process w ≡ (ok tt, w')
      → let later = record (run lease calls w') { clock = t } in
        (count_grants lease event.provider event.event_id calls w' ≡ 0)
        × Leaves event later (deliver lease event again later)
  delivered_once w w' process again calls t k free keeps h =
      let (r, done, keyed) = delivered-Done w w' k free process keeps h in
      let (still, none_granted) =
        processed_once lease event.provider event.event_id calls w' r keyed done in
      (
        none_granted,
        left_alone again (record (run lease calls w') { clock = t }) r _
            (run-IsKeyed calls w' keyed) refl still,
      )
