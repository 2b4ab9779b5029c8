-- ===== src/Service/Reconcile.antt =====
-- `Reconcile` of service.go: the walk over all subscriptions in batches, and the clean-up after it.
pub mod Termination
use procyon_modules.Base.{
  ℕ, suc, zero, ◌+◌, ◌-◌, Bool, true, false, Option, none, some, List, [], ◌∷◌, ◌++◌, ltb,
  if◌then◌else◌, length,
}
use procyon_modules.Base.Int.{pos_part, neg_part}
use procyon_modules.Base.Text.{Text, bytes}
use procyon_modules.Models.{PaymentSubscription}
use procyon_modules.Models.Errors.{Error, wrapped, join}
use procyon_modules.Exec.{Result, ok, err, World, Exec}
use procyon_modules.Store.Webhooks.{cleanup_webhook_payloads}
use procyon_modules.Store.Subscriptions.{list_subscriptions_after}
use procyon_modules.Service.{PaymentSystemService, Provider, lookup}

abbrev reconciler_of : Option Provider → Option (PaymentSubscription → Exec (Unit {0}))
reconciler_of none = none
reconciler_of (some p) = p.reconcile_subscription

abbrev pub batch_size : ℕ
batch_size = 250

module _ (s : PaymentSystemService) where
  -- `s.providers[item.Provider].(paymentReconciler)`
  unfoldable pub reconciler : Text → Option (PaymentSubscription → Exec (Unit {0}))
  unfolding lookup
  reconciler name = reconciler_of (lookup name s.providers)

  abbrev errors_of : PaymentSubscription → Result (Unit {0}) → List Error
  errors_of item (ok u) = []
  errors_of item (err e) =
      wrapped (bytes "reconcile " ++ item.provider ++ b'/' ∷ item.external_subscription_id) e ∷ []

  -- One subscription: the error that it adds, if any.
  abbrev reconcile_with :
      Option (PaymentSubscription → Exec (Unit {0}))
      → PaymentSubscription
      → World
      → List Error × World
  reconcile_with none item w = ([], w)
  reconcile_with (some call) item w = let (r, w') = call item w in (errors_of item r, w')

  unfoldable pub reconcile_one : PaymentSubscription → World → List Error × World
  unfolding reconciler
  reconcile_one item = reconcile_with (reconciler item.provider) item

  -- The loop over a batch: the last id, the errors so far, and the world.
  unfoldable pub reconcile_items :
      List PaymentSubscription → ℕ → List Error → World → ℕ × List Error × World
  unfolding reconcile_one
  reconcile_items [] after_id errors w = (after_id, errors, w)
  reconcile_items (item ∷ items) after_id errors w =
      let (added, w') = reconcile_one item w in reconcile_items items item.id (errors ++ added) w'

  -- The loop over the batches, for at most `fuel` of them.
  unfoldable pub reconcile_batches : ℕ → ℕ → List Error → World → Option (List Error × World)
  unfolding reconcile_items
  reconcile_batches zero after_id errors w = none
  reconcile_batches (suc fuel) after_id errors w =
      let (r, w') = list_subscriptions_after after_id batch_size w in
      elim r [
        | err e ↦ some (errors ++ e ∷ [], w')
        | ok items ↦
            let (after', errors', w'') = reconcile_items items after_id errors w' in
            let rest = reconcile_batches fuel after' errors' w'' in
            if ltb (length items) batch_size then some (errors', w'') else rest
      ]

  abbrev cleanup_errors : Result (Unit {0}) → List Error
  cleanup_errors (ok u) = []
  cleanup_errors (err e) = e ∷ []

  abbrev joined_result : Option Error → Result (Unit {0})
  joined_result none = ok tt
  joined_result (some e) = err e

  -- What follows the loop: `Add(-s.config.WebhookRetention)` of a time before Go's zero time is 0.
  abbrev pub finish_reconcile : Option (List Error × World) → Option (Result (Unit {0}) × World)
  finish_reconcile none = none
  finish_reconcile (some (errors, w)) =
      let retention = s.config.webhook_retention in
      let (r, w') =
        cleanup_webhook_payloads ((w.clock + neg_part retention) - pos_part retention) w in
      some (joined_result (join (errors ++ cleanup_errors r)), w')

  -- `Reconcile`
  unfoldable pub reconcile : ℕ → World → Option (Result (Unit {0}) × World)
  unfolding join
  reconcile fuel w = finish_reconcile (reconcile_batches fuel 0 [] w)
