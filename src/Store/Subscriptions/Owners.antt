-- ===== src/Store/Subscriptions/Owners.antt =====
-- The owner of a subscription, over any history of upserts.
use procyon_modules.Base.{
  ℕ, ◌≡◌, sym, ap, ◌∙◌, true, false, ◌&&◌, Option, none, some, List, [], ◌∷◌, inl, inr, ◌⊎◌,
  Bool-cases,
}
use mathlib.Core.Bool.{false≢true}
use procyon_modules.Base.Text.{Text, ◌==◌, is_empty}
use procyon_modules.Models.{Time, PaymentSubscription}
use procyon_modules.Models.Errors.{Sentinel, sentinel, database}
use procyon_modules.Exec.{Result, ok, err, World}
use procyon_modules.Store.Table.Laws.{accepts}
use procyon_modules.Store.Keyed.Laws.{at_own_key}
use procyon_modules.Store.Subscriptions.{merged, conflicts, upsert_subscription}
use procyon_modules.Store.Subscriptions.Upsert.{
  subscription_of, HasSubscriptions, upserted, Upserts, upsert_subscription-Upserts,
}

-- The upserts that any callers make, each at its time, in the order in which they are served.
unfoldable pub run : List (Time × PaymentSubscription) → World → World
run [] w = w
run ((t, s) ∷ ss) w = run ss (upsert_subscription s (record w { clock = t })).1

-- The row of the subscription has this owner, with the key and the time that it was created with.
abbrev pub IsOwned : PaymentSubscription → Option PaymentSubscription → Type 0
IsOwned r none = ⊥
IsOwned r (some s) = (s.identity_id ≡ r.identity_id) × (s.id ≡ r.id) × (s.created_at ≡ r.created_at)

module _ (r : PaymentSubscription) (owned : is_empty r.identity_id ≡ false) (p e : Text) where
  upserted-IsOwned :
      (now : Time) (id : ℕ) (s : PaymentSubscription) (o : Option PaymentSubscription)
      → IsOwned r o
      → IsOwned r (some (upserted now id s o))
  unfolding upserted merged
  upserted-IsOwned now id s none h = absurd h
  upserted-IsOwned now id s (some q) h =
      let kept : is_empty q.identity_id ≡ false = rw h.0 owned in (rw kept h.0, h.1, h.2)

  step-IsOwned :
      (t : Time) (s : PaymentSubscription) (w : World) (res : Result (Unit {0}) × World)
      → Upserts s (record w { clock = t }) res
      → IsOwned r (subscription_of p e w.db)
      → IsOwned r (subscription_of p e res.1.db)
  unfolding Upserts
  step-IsOwned t s w (err x, w') h o = rw h.0 o
  step-IsOwned t s w (ok u, w') h o =
      elim (Bool-cases (s.provider == p && s.external_subscription_id == e)) [
        | inr m ↦ rw (h.1 p e, m) o
        | inl m ↦
            rw
              (at_own_key (λ a b. subscription_of a b w.db) (λ a b. subscription_of a b w'.db)
                s.provider s.external_subscription_id p e
                (λ a b. some (upserted t w.db.subscriptions.next_id s (subscription_of a b w.db))) m
                (h.1 p e))
              (upserted-IsOwned t w.db.subscriptions.next_id s (subscription_of p e w.db) o)
      ]

  step_table :
      (t : Time) (s : PaymentSubscription) (w : World) (res : Result (Unit {0}) × World)
      → HasSubscriptions w.db
      → Upserts s (record w { clock = t }) res
      → HasSubscriptions res.1.db
  unfolding Upserts
  step_table t s w (err x, w') v h = rw h.0 v
  step_table t s w (ok u, w') v h = h.4

  -- Once a subscription has an owner, no history of upserts, by whichever accounts and with
  -- whatever statements failing, gives it another one, or another primary key.
  pub owner_is_kept :
      (ss : List (Time × PaymentSubscription)) (w : World)
      → HasSubscriptions w.db
      → IsOwned r (subscription_of p e w.db)
      → IsOwned r (subscription_of p e (run ss w).db)
  unfolding run
  owner_is_kept [] w v o = o
  owner_is_kept ((t, s) ∷ ss) w v o =
      let now : World = record w { clock = t } in
      let h = upsert_subscription-Upserts s now v in
      owner_is_kept ss (upsert_subscription s now).1
        (step_table t s w (upsert_subscription s now) v h)
        (step-IsOwned t s w (upsert_subscription s now) h o)

-- An upsert for another identity than the owner's answers "ownership conflict", unless the driver
-- reports an error, and changes nothing.
pub takeover_fails :
    (s : PaymentSubscription) (w : World)
    → HasSubscriptions w.db
    → accepts (conflicts s) (subscription_of s.provider s.external_subscription_id w.db) ≡ true
    → (((upsert_subscription s w).0 ≡ err (sentinel Sentinel.ownership_conflict))
        ⊎ ((text : Text) × ((upsert_subscription s w).0 ≡ err (database text))))
      × ((upsert_subscription s w).1.db ≡ w.db)
unfolding Upserts
takeover_fails s w v c = go (upsert_subscription s w) (upsert_subscription-Upserts s w v)
  where
    go :
        (res : Result (Unit {0}) × World)
        → Upserts s w res
        → ((res.0 ≡ err (sentinel Sentinel.ownership_conflict))
            ⊎ ((text : Text) × (res.0 ≡ err (database text))))
          × (res.1.db ≡ w.db)
    go (err x, w') (d, inl (text, h)) = (inr (text, ap err h), d)
    go (err x, w') (d, inr (h, t)) = (inl (ap err h), d)
    go (ok u, w') h = absurd (false≢true (sym h.0 ∙ c))
