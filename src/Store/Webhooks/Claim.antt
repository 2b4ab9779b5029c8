-- ===== src/Store/Webhooks/Claim.antt =====
-- What `ClaimWebhook` does to the row of its event and to the other rows.
use procyon_modules.Base.{
  ℕ, suc, ◌≡◌, refl, ◌∙◌, ◌++◌, Bool, true, false, ◌&&◌, Option, none, some, List, [], ◌∷◌, arith,
  Bool-cases, inl, inr, Option-cases, if◌then◌else◌,
}
use procyon_modules.Base.Int.{ℤ}
use procyon_modules.Base.Text.{Text, ◌==◌}
use procyon_modules.Models.{Time, PaymentWebhookEvent}
use procyon_modules.Models.Errors.{Error}
use procyon_modules.Exec.{Result, ok, err, World, Db, Exec, ◌>>=◌, next_request, pure}
use procyon_modules.Exec.Rules.{at_pure, at_if, at_bind_statement, at_bind_now, at_bind_random}
use procyon_modules.Store.Table.{find, update_where}
use procyon_modules.Store.Table.Laws.{alter}
use procyon_modules.Store.Webhooks.{
  provider_of, event_of, is_event, is_claimable, claimed, first_claim, create_webhook,
  update_webhooks, hex, webhook_lease_id, claim_webhook,
}
use procyon_modules.Store.Keyed.Laws.{
  at_every_key, find-insert_self, find-insert_ne, insert-HasIndex, update-HasIndex,
  find-update_self, find-update_ne, affected,
}
use procyon_modules.Store.Webhooks.Keys.{row_of, IsKeyed, KeepsKey}

module _ (now : Time) (lease : ℤ) where
  -- May this row be claimed? An event with no row may.
  abbrev pub is_free : Option PaymentWebhookEvent → Bool
  is_free none = true
  is_free (some r) = is_claimable now lease r

  -- The row after a call that offers `lease_id`; `id` is the next primary key.
  abbrev pub row_after_claim :
      ℕ → Text → PaymentWebhookEvent → Option PaymentWebhookEvent → Option PaymentWebhookEvent
  row_after_claim id lease_id event none =
      some (record (first_claim now lease_id event) { id = id; created_at = now; updated_at = now })
  row_after_claim id lease_id event (some r) =
      some (if is_claimable now lease r then claimed now lease_id event r else r)

-- The outcome of a claim, as a predicate of its result: whether the lease is granted, and for every
-- key the row that a lookup finds.
unfoldable pub Claims : PaymentWebhookEvent → ℤ → World → Result (Text × Bool) × World → Type 0
Claims event lease w (err e, w') = w'.db ≡ w.db
Claims event lease w (ok (lease_id, granted), w') =
    let p = event.provider in
    let e = event.event_id in
    (granted ≡ is_free w.clock lease (row_of p e w.db))
    × ((p' e' : Text)
        → row_of p' e' w'.db ≡ (
            if p == p' && e == e'
            then row_after_claim w.clock lease w.db.webhooks.next_id lease_id event
                (row_of p e w.db)
            else row_of p' e' w.db))
    × (w'.db.payments ≡ w.db.payments)
    × (w'.db.subscriptions ≡ w.db.subscriptions)
    × IsKeyed w'.db

-- The draw of a lease id costs one request to the environment and changes nothing else.
at_bind_lease :
    {A : Type 0} (P : Result A × World → Type 0) (f : Text → Exec A) (w : World)
    → ((e : Error) → P (err e, next_request w))
    → ((raw : List ℕ) → w.entropy w.requests 16 ≡ some raw → P (f (hex raw) (next_request w)))
    → P ((webhook_lease_id >>= f) w)
unfolding webhook_lease_id ◌>>=◌
at_bind_lease P f w failed drawn =
    at_bind_random (λ r. P (elim r.0 [ ok a ↦ f a r.1 | err e ↦ (err e, r.1) ])) 16
      (λ raw. pure (hex raw)) w failed drawn

module _ (event : PaymentWebhookEvent) (lease : ℤ) (w : World) (u : IsKeyed w.db) where
  Claims-err : (e : Error) (w' : World) → w'.db ≡ w.db → Claims event lease w (err e, w')
  unfolding Claims
  Claims-err e w' h = h

  -- The statements of a claim that offers `lease_id`.
  abbrev after_insert : Text → Bool × Db
  after_insert lease_id = create_webhook w.clock (first_claim w.clock lease_id event) w.db

  abbrev after_update : Text → Bool × Db
  after_update lease_id =
      update_webhooks
        (λ r. is_event event.provider event.event_id r && is_claimable w.clock lease r)
        (claimed w.clock lease_id event) w.db

  abbrev p : Text
  p = event.provider

  abbrev e : Text
  e = event.event_id

  abbrev new_row : Text → PaymentWebhookEvent
  new_row lease_id = record (first_claim w.clock lease_id event) {
    id = w.db.webhooks.next_id;
    created_at = w.clock;
    updated_at = w.clock;
  }

  insert_new :
      (lease_id : Text)
      → row_of p e w.db ≡ none
      → (after_insert lease_id).1 ≡ record w.db {
        webhooks = record {
          rows = w.db.webhooks.rows ++ new_row lease_id ∷ [];
          next_id = suc w.db.webhooks.next_id;
        };
      }
  unfolding create_webhook first_claim
  insert_new lease_id h = ground arith

  insert_new_created : (lease_id : Text) → row_of p e w.db ≡ none → (after_insert lease_id).0 ≡ true
  unfolding create_webhook first_claim
  insert_new_created lease_id h = ground arith

  insert_old :
      (lease_id : Text) (r : PaymentWebhookEvent)
      → row_of p e w.db ≡ some r
      → (after_insert lease_id).0 ≡ false
  unfolding create_webhook first_claim
  insert_old lease_id r h = ground arith

  insert_case :
      (lease_id : Text) (w' : World)
      → w'.db ≡ (after_insert lease_id).1
      → (after_insert lease_id).0 ≡ true
      → Claims event lease w (ok (lease_id, true), w')
  unfolding Claims first_claim
  insert_case lease_id w' d c = elim (Option-cases (row_of p e w.db)) [
    | inr (r, h) ↦ absurd (ground (arith, insert_old lease_id r h))
    | inl h ↦ rw (d ∙ insert_new lease_id h) (
      ground arith,
      at_every_key (λ a b. row_of a b w.db) _ p e _
          (find-insert_self provider_of event_of w.db.webhooks.rows (new_row lease_id) h ∙ rw h)
          (find-insert_ne provider_of event_of w.db.webhooks.rows (new_row lease_id)),
      refl,
      refl,
      insert-HasIndex provider_of event_of w.db.webhooks.rows (new_row lease_id) h u,
    )
  ]

  -- An insert that succeeds has found no row of its event.
  pub inserted_free :
      (lease_id : Text)
      → (after_insert lease_id).0 ≡ true
      → is_free w.clock lease (row_of p e w.db) ≡ true
  inserted_free lease_id c = elim (Option-cases (row_of p e w.db)) [
    | inl h ↦ rw h refl
    | inr (r, h) ↦ absurd (ground (arith, insert_old lease_id r h))
  ]

  claimed-KeepsKey : (lease_id : Text) → KeepsKey (claimed w.clock lease_id event)
  unfolding claimed
  claimed-KeepsKey lease_id = record { keeps_first = λ r. refl; keeps_second = λ r. refl }

  update_case :
      (lease_id : Text) (w' : World)
      → (after_insert lease_id).0 ≡ false
      → w'.db ≡ (after_update lease_id).1
      → Claims event lease w
          (ok (if (after_update lease_id).0 then (lease_id, true) else ([], false)), w')
  unfolding Claims update_webhooks
  update_case lease_id w' c d = elim (Option-cases (row_of p e w.db)) [
    | inl h ↦ absurd (ground (arith, insert_new_created lease_id h))
    | inr (r, h) ↦
        rw (d, affected provider_of event_of p e free w.db.webhooks.rows u, h)
          (
            ground arith,
            at_every_key (λ a b. row_of a b w.db) _ p e _ (updated_row r h)
                (find-update_ne provider_of event_of f (claimed-KeepsKey lease_id) p e free
                  w.db.webhooks.rows),
            refl,
            refl,
            update-HasIndex provider_of event_of f (claimed-KeepsKey lease_id) _ w.db.webhooks.rows
                u,
          )
  ]
    where
      free : PaymentWebhookEvent → Bool
      free = is_claimable w.clock lease

      f : PaymentWebhookEvent → PaymentWebhookEvent
      f = claimed w.clock lease_id event

      seen :
          find (is_event p e) (update_where (λ r. is_event p e r && free r) f w.db.webhooks.rows)
          ≡ alter (λ r. if free r then f r else r) (row_of p e w.db)
      seen =
          find-update_self provider_of event_of f (claimed-KeepsKey lease_id) p e free
            w.db.webhooks.rows

      updated_row :
          (r : PaymentWebhookEvent)
          → row_of p e w.db ≡ some r
          → find (is_event p e) (update_where (λ q. is_event p e q && free q) f w.db.webhooks.rows)
            ≡ row_after_claim w.clock lease w.db.webhooks.next_id
                (if◌then◌else◌ {A = Text × Bool} (free r) (lease_id, true) ([], false)).0
                event
                (some r)
      updated_row r h = elim (Bool-cases (free r)) [
        | inl g ↦ seen ∙ rw (h, g) refl
        | inr g ↦ seen ∙ rw (h, g) refl
      ]

  no_insert :
      (lease_id : Text) → (after_insert lease_id).0 ≡ false → (after_insert lease_id).1 ≡ w.db
  unfolding create_webhook
  no_insert lease_id c = ground arith

  -- The update after an insert that has not succeeded hits a row exactly where it is free.
  pub updated_free :
      (lease_id : Text)
      → (after_insert lease_id).0 ≡ false
      → (update_webhooks
          (λ r. is_event event.provider event.event_id r && is_claimable w.clock lease r)
          (claimed w.clock lease_id event)
          (after_insert lease_id).1).0
        ≡ is_free w.clock lease (row_of p e w.db)
  unfolding update_webhooks
  updated_free lease_id c = elim (Option-cases (row_of p e w.db)) [
    | inl h ↦ absurd (ground (arith, insert_new_created lease_id h))
    | inr (r, h) ↦
        rw
          (
            no_insert lease_id c,
            affected provider_of event_of p e (is_claimable w.clock lease) w.db.webhooks.rows u,
            h,
          )
          refl
  ]

  -- `ClaimWebhook`, where no event has two rows: a call that fails changes no table. One that
  -- returns grants the lease exactly when the event has no row, or one that has failed or whose
  -- lease has run out; the event's row is then the claimed one, otherwise it stays, and no other row
  -- or table changes.
  pub claim_webhook-Claims : Claims event lease w (claim_webhook event lease w)
  unfolding claim_webhook
  claim_webhook-Claims = at_bind_now P _ w (
      at_bind_lease P _ w (λ e. Claims-err e _ refl)
        λ raw e.
          at_bind_statement P _ _ (next_request w) (λ text. Claims-err _ _ refl)
            (at_if P _ _ _ _ (λ h. at_pure P _ _ (insert_case (hex raw) _ refl h))
              λ h.
                at_bind_statement P _ _ _ (λ text. Claims-err _ _ (no_insert (hex raw) h))
                  (at_pure P _ _ (rw (no_insert (hex raw) h) (update_case (hex raw) _ h refl)))))
    where
      P : Result (Text × Bool) × World → Type 0
      P = Claims event lease w
