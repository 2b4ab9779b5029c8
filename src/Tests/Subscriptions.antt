-- ===== src/Tests/Subscriptions.antt =====
-- Subscriptions on concrete databases.
use procyon_modules.Base.{◌≡◌, refl, true, List, [], ◌∷◌, ◌⊎◌, arith}
use procyon_modules.Base.Text.{Text, bytes, ◌==◌}
use procyon_modules.Models.{Time, SubscriptionStatus, PaymentSubscription}
use procyon_modules.Models.Errors.{Sentinel, sentinel, database}
use procyon_modules.Exec.{err, World}
use procyon_modules.Store.Table.{find}
use procyon_modules.Store.Table.Laws.{accepts}
use procyon_modules.Store.Keyed.{is_key}
use procyon_modules.Store.Subscriptions.{upsert_subscription, conflicts, active_entitlement}
use procyon_modules.Store.Subscriptions.Upsert.{
  subscription_of, HasSubscriptions, Upserts, upsert_subscription-Upserts,
}
use procyon_modules.Store.Subscriptions.Owners.{run, IsOwned, owner_is_kept, takeover_fails}
use procyon_modules.Store.Subscriptions.Entitlements.{Entitles, active_entitlement-Entitles}
use procyon_modules.Tests.{new_world, failing_world, subscription}

abbrev stripe : Text
stripe = bytes "stripe"

abbrev sub : Text
sub = bytes "sub_1"

abbrev ann : Text
ann = bytes "ann"

abbrev row : PaymentSubscription
row = record (subscription ann SubscriptionStatus.active) {
  id = 1;
  created_at = 50;
  updated_at = 50;
}

-- Ann has a subscription. One statement will fail.
abbrev start : World
start = record (failing_world 100 3) {
  db = record (new_world 100).db { subscriptions = record { rows = row ∷ []; next_id = 2 } };
}

start-HasSubscriptions : HasSubscriptions start.db
unfolding find
start-HasSubscriptions = record { index = (refl, tt); ids = (refl, tt); below = (omega arith, tt) }

upsert_subscription-Upserts_example :
    Upserts
      (subscription ann SubscriptionStatus.past_due)
      start
      (upsert_subscription (subscription ann SubscriptionStatus.past_due) start)
upsert_subscription-Upserts_example =
    upsert_subscription-Upserts (subscription ann SubscriptionStatus.past_due) start
      start-HasSubscriptions

-- Bob tries to take it over, and an event without an identity expires it.
abbrev attempts : List (Time × PaymentSubscription)
attempts =
    (110, subscription (bytes "bob") SubscriptionStatus.active)
    ∷ (120, subscription [] SubscriptionStatus.expired)
    ∷ []

owner_is_kept_example : IsOwned row (subscription_of stripe sub (run attempts start).db)
unfolding find is_key ◌==◌
owner_is_kept_example =
    owner_is_kept row refl stripe sub attempts start start-HasSubscriptions (refl, refl, refl)

bob_conflicts :
    accepts
      (conflicts (subscription (bytes "bob") SubscriptionStatus.active))
      (subscription_of stripe sub start.db)
    ≡ true
unfolding conflicts find is_key ◌==◌
bob_conflicts = refl

takeover_fails_example :
    let s = subscription (bytes "bob") SubscriptionStatus.active in
    (((upsert_subscription s start).0 ≡ err (sentinel Sentinel.ownership_conflict))
      ⊎ ((text : Text) × ((upsert_subscription s start).0 ≡ err (database text))))
    × ((upsert_subscription s start).1.db ≡ start.db)
takeover_fails_example =
    takeover_fails (subscription (bytes "bob") SubscriptionStatus.active) start
      start-HasSubscriptions bob_conflicts

active_entitlement-Entitles_example :
    Entitles ann (bytes "gold") start (active_entitlement ann (bytes "gold") start)
active_entitlement-Entitles_example = active_entitlement-Entitles ann (bytes "gold") start
