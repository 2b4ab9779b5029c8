-- ===== src/Store/Subscriptions.antt =====
-- The subscription operations of store.go: the upsert with its check of the owner, the entitlement
-- queries and the other lookups.
pub mod Upsert
pub mod Keys
pub mod Owners
pub mod Entitlements
use procyon_modules.Base.{
  ℕ, suc, Bool, true, false, ◌&&◌, ◌||◌, not, Option, none, some, List, [], ◌∷◌, ◌++◌, eqb, ltb,
  leb, if◌then◌else◌, select, take,
}
use procyon_modules.Base.Int.{ℤ, pos}
use procyon_modules.Base.Text.{Text, ◌==◌, is_empty, trim_space}
use procyon_modules.Models.{Time, SubscriptionStatus, PaymentSubscription}
use procyon_modules.Models.Errors.{Sentinel, Error, sentinel, is}
use procyon_modules.Exec.{
  Result, ok, err, Table, Db, Exec, pure, raise, ◌>>=◌, ◌>>◌, time_now, statement, transaction,
}
use procyon_modules.Store.Keyed.{is_key}
use procyon_modules.Store.Table.{find, update_where, count, order_desc, page, first}
use procyon_modules.Store.Webhooks.{or_not_found}

-- The columns of the unique index.
abbrev pub provider_of : PaymentSubscription → Text
provider_of r = r.provider

abbrev pub external_of : PaymentSubscription → Text
external_of r = r.external_subscription_id

-- `provider = ? AND external_subscription_id = ?`
abbrev pub is_subscription : Text → Text → PaymentSubscription → Bool
is_subscription = is_key provider_of external_of

-- A row as `Create` writes it.
unfoldable pub created : Time → ℕ → PaymentSubscription → PaymentSubscription
created now id subscription = record subscription { id = id; created_at = now; updated_at = now }

-- `INSERT … ON CONFLICT DO NOTHING`, and whether a row was written.
unfoldable pub create_subscription : Time → PaymentSubscription → Db → Bool × Db
create_subscription now subscription db =
    elim (find (is_subscription subscription.provider subscription.external_subscription_id)
      db.subscriptions.rows) [
        | some r ↦ (false, db)
        | none ↦ (
          true,
          record db {
            subscriptions = record {
              rows =
                  db.subscriptions.rows ++ created now db.subscriptions.next_id subscription ∷ [];
              next_id = suc db.subscriptions.next_id;
            };
          },
        )
      ]

-- Two different non-empty identities.
unfoldable pub conflicts : PaymentSubscription → PaymentSubscription → Bool
conflicts subscription existing =
    not (is_empty existing.identity_id)
    && (not (is_empty subscription.identity_id)
        && not (existing.identity_id == subscription.identity_id))

-- The columns that an upsert writes over an existing row.
unfoldable pub merged : Time → PaymentSubscription → PaymentSubscription → PaymentSubscription
merged now subscription existing = record existing {
  customer_id = subscription.customer_id;
  plan_code = subscription.plan_code;
  status = subscription.status;
  current_period_start = subscription.current_period_start;
  current_period_end = subscription.current_period_end;
  cancel_at = subscription.cancel_at;
  cancel_at_period_end = subscription.cancel_at_period_end;
  updated_at = now;
  identity_id =
      if is_empty existing.identity_id && not (is_empty subscription.identity_id)
      then subscription.identity_id
      else existing.identity_id;
  provider_data =
      if is_empty subscription.provider_data
      then existing.provider_data
      else subscription.provider_data;
}

-- `UPDATE payment_subscriptions … WHERE id = ?`
unfoldable pub update_subscription :
    ℕ → (PaymentSubscription → PaymentSubscription) → Db → Unit {0} × Db
update_subscription id f db = (
  tt,
  record db {
    subscriptions = record db.subscriptions {
      rows = update_where (λ r. eqb r.id id) f db.subscriptions.rows;
    };
  },
)

unfoldable pub find_subscription : Text → Text → Db → Option PaymentSubscription × Db
find_subscription provider external_id db =
    (find (is_subscription provider external_id) db.subscriptions.rows, db)

-- What follows the SELECT … FOR UPDATE.
unfoldable pub write_subscription :
    Time → PaymentSubscription → Option PaymentSubscription → Exec (Unit {0})
write_subscription now subscription none = raise (sentinel Sentinel.record_not_found)
write_subscription now subscription (some existing) =
    if conflicts subscription existing
    then raise (sentinel Sentinel.ownership_conflict)
    else statement (update_subscription existing.id (merged now subscription))

-- `UpsertSubscription`
unfoldable pub upsert_subscription : PaymentSubscription → Exec (Unit {0})
upsert_subscription subscription = do
  now ← time_now
  inserted ← statement (create_subscription now subscription)
  if inserted
      then pure tt
      else transaction do
        existing ←
            statement
              (find_subscription subscription.provider subscription.external_subscription_id)
        write_subscription now subscription existing

-- `status IN (ACTIVE, TRIALING)`
abbrev pub is_entitling : SubscriptionStatus → Bool
is_entitling SubscriptionStatus.active = true
is_entitling SubscriptionStatus.trialing = true
is_entitling _ = false

-- The condition that the two entitlement queries share.
unfoldable pub is_current : Text → Time → PaymentSubscription → Bool
is_current identity_id now r =
    r.identity_id == identity_id && (is_entitling r.status && ltb now r.current_period_end)

-- `HasActiveSubscription`
unfoldable pub has_active_subscription : Text → Exec Bool
has_active_subscription identity_id = do
  now ← time_now
  statement (λ db. (ltb 0 (count (is_current identity_id now) db.subscriptions.rows), db))

-- `AND plan_code = ?`, where a plan is asked for.
unfoldable pub has_plan : Text → PaymentSubscription → Bool
has_plan plan_code r =
    if is_empty (trim_space plan_code) then true else r.plan_code == trim_space plan_code

-- `ActiveEntitlement`
unfoldable pub active_entitlement : Text → Text → Exec PaymentSubscription
active_entitlement identity_id plan_code = do
  now ← time_now
  found ← statement (λ db. (
    first (
        order_desc (λ r. r.current_period_end)
          (select (λ r. is_current identity_id now r && has_plan plan_code r)
            db.subscriptions.rows)),
    db,
  ))
  or_not_found found

-- `ListSubscriptionsAfter`: rows stand in the order of their ids.
unfoldable pub list_subscriptions_after : ℕ → ℕ → Exec (List PaymentSubscription)
list_subscriptions_after after_id limit =
    statement (λ db. (take limit (select (λ r. ltb after_id r.id) db.subscriptions.rows), db))

-- `ListSubscriptions`
unfoldable pub list_subscriptions : Text → ℤ → ℤ → Exec (List PaymentSubscription)
list_subscriptions identity_id limit offset = statement (λ db. (
  page limit offset (
      order_desc (λ r. r.current_period_end)
        (select (λ r. r.identity_id == identity_id) db.subscriptions.rows)),
  db,
))

-- `GetSubscription`
unfoldable pub get_subscription : Text → Text → Text → Exec PaymentSubscription
get_subscription provider external_id identity_id = do
  found ← statement (λ db. (
    find (λ r. is_subscription provider external_id r && r.identity_id == identity_id)
        db.subscriptions.rows,
    db,
  ))
  or_not_found found

-- `GetSubscriptionByExternal`
unfoldable pub get_subscription_by_external : Text → Text → Exec PaymentSubscription
get_subscription_by_external provider external_id = do
  found ← statement (find_subscription provider external_id)
  or_not_found found

abbrev customer_of : Option PaymentSubscription → Text
customer_of none = []
customer_of (some r) = r.customer_id

-- `CustomerID`: the empty text where there is none.
unfoldable pub customer_id : Text → Text → Exec Text
customer_id provider identity_id = do
  found ← statement (λ db. (
    first (
        order_desc (λ r. r.updated_at)
          (select
            (λ r.
              r.provider == provider
              && (r.identity_id == identity_id && not (is_empty r.customer_id)))
            db.subscriptions.rows)),
    db,
  ))
  pure (customer_of found)
