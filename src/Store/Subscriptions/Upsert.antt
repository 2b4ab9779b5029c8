-- ===== src/Store/Subscriptions/Upsert.antt =====
-- What `UpsertSubscription` does to the row of its subscription and to the other rows.
use procyon_modules.Base.{
  ℕ, suc, ◌&&◌, ◌≡◌, ◌≢◌, refl, sym, ap, ◌∙◌, Bool, true, false, Option, none, some, [], ◌∷◌, ◌++◌,
  arith, inl, inr, ◌⊎◌, if◌then◌else◌,
}
use procyon_modules.Base.Text.{Text, ◌==◌, eq_refl, is_empty, eq_iff}
use procyon_modules.Models.{Time, PaymentSubscription}
use procyon_modules.Models.Errors.{Sentinel, sentinel, database}
use procyon_modules.Exec.{Result, ok, err, Table, World, Db}
use procyon_modules.Exec.Rules.{
  at_statement, at_bind_statement, at_bind_now, at_if, at_pure, at_raise, at_transaction, at_commit,
  at_abort, InTransaction,
}
use procyon_modules.Store.Table.{find}
use procyon_modules.Store.Table.Laws.{accepts}
use procyon_modules.Store.Keyed.{KeepsKey}
use procyon_modules.Store.Keyed.Laws.{find-insert_self, find-insert_ne, at_every_key}
use procyon_modules.Store.Keyed.Ids.{
  IsTable, update_id_self, update_id_ne, update_id-IsTable, insert-IsTable,
}
use procyon_modules.Store.Subscriptions.{
  provider_of, external_of, is_subscription, merged, created, create_subscription,
  update_subscription, conflicts, find_subscription, write_subscription, upsert_subscription,
}

abbrev pub id_of : PaymentSubscription → ℕ
id_of r = r.id

-- The row of a subscription, as a lookup finds it.
abbrev pub subscription_of : Text → Text → Db → Option PaymentSubscription
subscription_of p e db = find (is_subscription p e) db.subscriptions.rows

abbrev pub HasSubscriptions : Db → Type 0
HasSubscriptions db = IsTable provider_of external_of id_of db.subscriptions

-- The row after an upsert at time `now`; `id` is the next primary key.
unfoldable pub upserted :
    Time → ℕ → PaymentSubscription → Option PaymentSubscription → PaymentSubscription
upserted now id subscription none = created now id subscription
upserted now id subscription (some existing) = merged now subscription existing

-- The outcome of an upsert, as a predicate of its result: the allowed errors with the old tables, or
-- for every key the row that a lookup finds.
unfoldable pub Upserts : PaymentSubscription → World → Result (Unit {0}) × World → Type 0
Upserts s w (err x, w') =
    (w'.db ≡ w.db)
    × (((text : Text) × (x ≡ database text))
        ⊎ ((x ≡ sentinel Sentinel.ownership_conflict)
            × (accepts (conflicts s) (subscription_of s.provider s.external_subscription_id w.db)
                ≡ true)))
Upserts s w (ok _, w') =
    let p = s.provider in
    let e = s.external_subscription_id in
    (accepts (conflicts s) (subscription_of p e w.db) ≡ false)
    × ((p' e' : Text)
        → subscription_of p' e' w'.db ≡ (
            if p == p' && e == e'
            then some (upserted w.clock w.db.subscriptions.next_id s (subscription_of p e w.db))
            else subscription_of p' e' w.db))
    × (w'.db.webhooks ≡ w.db.webhooks)
    × (w'.db.payments ≡ w.db.payments)
    × HasSubscriptions w'.db

merged-KeepsKey :
    (now : Time) (s : PaymentSubscription) → KeepsKey provider_of external_of (merged now s)
unfolding merged
merged-KeepsKey now s = record { keeps_first = λ r. refl; keeps_second = λ r. refl }

merged-id : (now : Time) (s r : PaymentSubscription) → (merged now s r).id ≡ r.id
unfolding merged
merged-id now s r = refl

-- What the INSERT tells of the row.
module _ (s : PaymentSubscription) (w : World) where
  abbrev pub insertion : Bool × Db
  insertion = create_subscription w.clock s w.db

  pub insert_found :
      insertion.0 ≡ false → subscription_of s.provider s.external_subscription_id w.db ≢ none
  unfolding create_subscription
  insert_found h n = ground arith

  pub insert_old : insertion.0 ≡ false → insertion.1 ≡ w.db
  unfolding create_subscription
  insert_old h = ground arith

  insert_new :
      subscription_of s.provider s.external_subscription_id w.db ≡ none
      → insertion.1 ≡ record w.db {
        subscriptions = record {
          rows = w.db.subscriptions.rows ++ created w.clock w.db.subscriptions.next_id s ∷ [];
          next_id = suc w.db.subscriptions.next_id;
        };
      }
  unfolding create_subscription
  insert_new h = ground arith

  pub inserted_none :
      insertion.0 ≡ true → subscription_of s.provider s.external_subscription_id w.db ≡ none
  unfolding create_subscription
  inserted_none h = ground arith

module _ (s : PaymentSubscription) (w : World) (v : HasSubscriptions w.db) where
  abbrev p : Text
  p = s.provider

  abbrev e : Text
  e = s.external_subscription_id

  abbrev P : Result (Unit {0}) × World → Type 0
  P = Upserts s w

  failed : (text : Text) (w' : World) → w'.db ≡ w.db → Upserts s w (err (database text), w')
  unfolding Upserts
  failed text w' h = (h, inl (text, refl))

  refused :
      (w' : World) (r : PaymentSubscription)
      → w'.db ≡ w.db
      → subscription_of p e w.db ≡ some r
      → conflicts s r ≡ true
      → Upserts s w (err (sentinel Sentinel.ownership_conflict), w')
  unfolding Upserts
  refused w' r d h c = (d, inr (refl, rw h c))

  created_case :
      (w' : World) → w'.db ≡ (insertion s w).1 → (insertion s w).0 ≡ true → Upserts s w (ok tt, w')
  unfolding Upserts created upserted
  created_case w' d c =
      let h = inserted_none s w c in
      let x : PaymentSubscription = created w.clock w.db.subscriptions.next_id s in
      rw (d ∙ insert_new s w h) (
        rw h,
        at_every_key (λ a b. subscription_of a b w.db) _ p e _
            (find-insert_self provider_of external_of w.db.subscriptions.rows x h ∙ rw h)
            (find-insert_ne provider_of external_of w.db.subscriptions.rows x),
        refl,
        refl,
        insert-IsTable provider_of external_of id_of w.db.subscriptions x v refl h,
      )

  merged_case :
      (w' : World) (r : PaymentSubscription)
      → w'.db ≡ (update_subscription r.id (merged w.clock s) w.db).1
      → subscription_of p e w.db ≡ some r
      → conflicts s r ≡ false
      → Upserts s w (ok tt, w')
  unfolding Upserts update_subscription upserted
  merged_case w' r d h free =
      let f : PaymentSubscription → PaymentSubscription = merged w.clock s in
      let k = merged-KeepsKey w.clock s in
      let i = merged-id w.clock s in
      let t : Table PaymentSubscription = w.db.subscriptions in
      rw d (
        rw h free,
        at_every_key (λ a b. subscription_of a b w.db) _ p e _
            (update_id_self provider_of external_of id_of f k i p e t v r h ∙ rw h)
            (update_id_ne provider_of external_of id_of f k i p e t v r h),
        refl,
        refl,
        update_id-IsTable provider_of external_of id_of f k i p e t v r h,
      )

  write_case :
      (start : Db) (o : Option PaymentSubscription) (w' : World)
      → start ≡ w.db
      → w'.db ≡ w.db
      → subscription_of p e w.db ≢ none
      → subscription_of p e w.db ≡ o
      → InTransaction P start (write_subscription w.clock s o w')
  unfolding write_subscription
  write_case start none w' q d found h = absurd (found h)
  write_case start (some r) w' q d found h =
      at_if (InTransaction P start) (conflicts s r) _ _ w'
        (λ taken.
          at_raise (InTransaction P start) _ w' (at_abort P start _ _ (refused _ r q h taken)))
        (λ free.
          at_statement (InTransaction P start) _ w'
            (λ text x. at_abort P start _ _ (failed text _ q))
            λ x. at_commit P start _ _ (
              merged_case _ r (ap (λ db. (update_subscription r.id (merged w.clock s) db).1) d) h
                free))

  -- `UpsertSubscription`, on a table whose indexes hold: where it returns, the row did not belong to
  -- another identity, it has been created or merged into, and no other row or table has changed;
  -- where it fails, nothing has changed, and the error is the driver's or "ownership conflict" for a
  -- row that belongs to another identity.
  pub upsert_subscription-Upserts : Upserts s w (upsert_subscription s w)
  unfolding upsert_subscription find_subscription
  upsert_subscription-Upserts = at_bind_now P _ w (
      at_bind_statement P _ _ w (λ text. failed text _ refl)
        (at_if P (insertion s w).0 _ _ _ (λ c. at_pure P _ _ (created_case _ refl c))
          λ c.
            at_transaction P _ _ (λ text w' d. failed text w' (d ∙ insert_old s w c))
              (at_bind_statement (InTransaction P (insertion s w).1) _ _ _
                (λ text. at_abort P (insertion s w).1 _ _ (failed text _ (insert_old s w c)))
                (write_case (insertion s w).1 _ _ (insert_old s w c) (insert_old s w c)
                  (insert_found s w c)
                  (ap (λ db. subscription_of p e db) (sym (insert_old s w c)))))))

-- The row that a lookup finds after an upsert that has returned.
pub upserted_found :
    (s : PaymentSubscription) (w w' : World)
    → HasSubscriptions w.db
    → upsert_subscription s w ≡ (ok tt, w')
    → subscription_of s.provider s.external_subscription_id w'.db
      ≡ some (
          upserted w.clock w.db.subscriptions.next_id s
            (subscription_of s.provider s.external_subscription_id w.db))
unfolding Upserts
upserted_found s w w' v h = go _ h (upsert_subscription-Upserts s w v)
  where
    go :
        (res : Result (Unit {0}) × World)
        → res ≡ (ok tt, w')
        → Upserts s w res
        → subscription_of s.provider s.external_subscription_id w'.db
          ≡ some (
              upserted w.clock w.db.subscriptions.next_id s
                (subscription_of s.provider s.external_subscription_id w.db))
    go (err e, w1) q u = cc
    go (ok r, w1) q u =
        rw (← (ap (λ x. x.1) q))
          (u.1 _ _ ∙ rw (eq_refl s.provider, eq_refl s.external_subscription_id) refl)

upserted_columns :
    (now : Time) (id : ℕ) (s : PaymentSubscription) (o : Option PaymentSubscription)
    → accepts (conflicts s) o ≡ false
    → is_empty s.identity_id ≡ false
    → ((upserted now id s o).identity_id ≡ s.identity_id)
      × ((upserted now id s o).status ≡ s.status)
      × ((upserted now id s o).current_period_end ≡ s.current_period_end)
unfolding upserted merged created conflicts
upserted_columns now id s none c g = (refl, refl, refl)
upserted_columns now id s (some r) c g =
    (ground (arith, c, g, eq_iff r.identity_id s.identity_id), refl, refl)

-- After an upsert with an identity that has returned, the row is that identity's, with the status
-- and the end of the period that the upsert brought.
pub upserted_owned :
    (s : PaymentSubscription) (w w' : World)
    → HasSubscriptions w.db
    → is_empty s.identity_id ≡ false
    → upsert_subscription s w ≡ (ok tt, w')
    → (r : PaymentSubscription) × (subscription_of s.provider s.external_subscription_id w'.db
        ≡ some r)
      × (r.identity_id ≡ s.identity_id)
      × (r.status ≡ s.status)
      × (r.current_period_end ≡ s.current_period_end)
unfolding Upserts
upserted_owned s w w' v g h =
    let o = subscription_of s.provider s.external_subscription_id w.db in
    let (identity, status, until) =
      upserted_columns w.clock w.db.subscriptions.next_id s o
        (accepted _ h (upsert_subscription-Upserts s w v)) g in
    (
      upserted w.clock w.db.subscriptions.next_id s o,
      upserted_found s w w' v h,
      identity,
      status,
      until,
    )
  where
    accepted :
        (res : Result (Unit {0}) × World)
        → res ≡ (ok tt, w')
        → Upserts s w res
        → accepts (conflicts s) (subscription_of s.provider s.external_subscription_id w.db) ≡ false
    accepted (err e, w1) q u = cc
    accepted (ok r, w1) q u = u.0
