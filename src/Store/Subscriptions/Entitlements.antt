-- ===== src/Store/Subscriptions/Entitlements.antt =====
-- Who is entitled: what `ActiveEntitlement` and `HasActiveSubscription` answer.
use procyon_modules.Base.{
  ℕ, ◌≤◌, ◌≡◌, refl, Bool, true, false, ◌&&◌, Option, none, some, inl, inr, ◌⊎◌, All, select,
}
use procyon_modules.Base.Text.{Text}
use procyon_modules.Models.{Time, PaymentSubscription}
use procyon_modules.Models.Errors.{Sentinel, sentinel, database}
use procyon_modules.Exec.{Result, ok, err, World}
use procyon_modules.Exec.Rules.{at_bind_statement, at_bind_now, at_pure, at_raise}
use procyon_modules.Store.Table.{first, order_desc}
use procyon_modules.Store.Table.Order.{best-none, best-accepted, best-largest}
use procyon_modules.Store.Webhooks.{or_not_found}
use procyon_modules.Store.Subscriptions.{is_current, has_plan, active_entitlement}

abbrev pub qualifies : Text → Text → Time → PaymentSubscription → Bool
qualifies identity_id plan_code now r = is_current identity_id now r && has_plan plan_code r

-- The outcome of the query, as a predicate of its result: a qualifying subscription with the latest
-- end, or "not found" with no qualifying one, or the driver's error.
unfoldable pub Entitles : Text → Text → World → Result PaymentSubscription × World → Type 0
Entitles identity_id plan_code w (ok r, w') =
    (w'.db ≡ w.db)
    × (qualifies identity_id plan_code w.clock r ≡ true)
    × All
        (λ s.
          (qualifies identity_id plan_code w.clock s ≡ false)
          ⊎ (s.current_period_end ≤ r.current_period_end))
        w.db.subscriptions.rows
Entitles identity_id plan_code w (err x, w') =
    (w'.db ≡ w.db)
    × (((text : Text) × (x ≡ database text))
        ⊎ ((x ≡ sentinel Sentinel.record_not_found)
            × All (λ s. qualifies identity_id plan_code w.clock s ≡ false) w.db.subscriptions.rows))

module _ (identity_id plan_code : Text) (w : World) where
  abbrev end_of : PaymentSubscription → ℕ
  end_of r = r.current_period_end

  abbrev answer : Option PaymentSubscription
  answer =
      first (
        order_desc end_of
          (select (qualifies identity_id plan_code w.clock) w.db.subscriptions.rows))

  answered :
      (o : Option PaymentSubscription) (w' : World)
      → w'.db ≡ w.db
      → answer ≡ o
      → Entitles identity_id plan_code w (or_not_found o w')
  unfolding Entitles or_not_found
  answered none w' d h =
      at_raise (Entitles identity_id plan_code w) _ w'
        (d, inr (refl, best-none end_of (qualifies identity_id plan_code w.clock) _ h))
  answered (some r) w' d h = at_pure (Entitles identity_id plan_code w) r w' (
    d,
    best-accepted end_of (qualifies identity_id plan_code w.clock) w.db.subscriptions.rows r h,
    best-largest end_of (qualifies identity_id plan_code w.clock) w.db.subscriptions.rows r h,
  )

  -- `ActiveEntitlement` answers with a subscription of the identity that is ACTIVE or TRIALING, whose
  -- period is not over and whose plan is the one asked for, and no other such subscription runs
  -- longer; it answers "not found" only where there is none; any other error is the driver's. It
  -- changes nothing.
  pub active_entitlement-Entitles :
      Entitles identity_id plan_code w (active_entitlement identity_id plan_code w)
  unfolding active_entitlement Entitles
  active_entitlement-Entitles = at_bind_now (Entitles identity_id plan_code w) _ w (
      at_bind_statement (Entitles identity_id plan_code w) _ _ w (λ text. (refl, inl (text, refl)))
        (answered answer _ refl refl))
