-- ===== src/Store/Webhooks/History/Effect.antt =====
-- What one call of a history does to the row of one event: the transitions of the event's state
-- machine, each with its guard.
use procyon_modules.Base.{
  ℕ, ◌≡◌, refl, sym, subst, Bool, true, false, ◌&&◌, Option, none, some, Bool-cases, inl, inr,
  if◌then◌else◌, and_true,
}
use procyon_modules.Base.Int.{ℤ}
use procyon_modules.Base.Text.{Text, ◌==◌, eq_iff}
use procyon_modules.Models.{Time, PaymentWebhookEvent, is_failed}
use mathlib.Core.Bool.{false≢true}
use procyon_modules.Models.Errors.{Sentinel, Error}
use procyon_modules.Exec.{Result, ok, err, World}
use procyon_modules.Exec.Rules.{at_pure, at_bind_statement, at_bind_now}
use procyon_modules.Store.Table.Laws.{alter, accepts}
use procyon_modules.Store.Webhooks.{
  provider_of, event_of, update_webhooks, is_held, is_claimable, finished, finish_webhook, marked,
  mark_webhook_for_retry, is_expired, cleaned, cleanup_webhook_payloads, claim_webhook,
}
use procyon_modules.Store.Webhooks.Keys.{row_of, IsKeyed, KeepsKey}
use procyon_modules.Store.Keyed.Laws.{at_own_key, find-update, update-HasIndex}
use procyon_modules.Store.Webhooks.Claim.{is_free, row_after_claim, Claims, claim_webhook-Claims}
use procyon_modules.Store.Webhooks.Finish.{
  Changes, finish_webhook-Changes, mark_webhook_for_retry-Changes,
}
use procyon_modules.Store.Webhooks.History.{
  Call, claims, finishes, marks, cleans, after, is_granted, grants,
}

module _ (lease : ℤ) where
  -- The transitions of the row of an event, at the time and by the call that make them. The last
  -- argument tells whether the transition is the grant of a lease.
  pub data Moves (p e : Text)
      : Time → Call → Option PaymentWebhookEvent → Option PaymentWebhookEvent → Bool → Type 0 where
    stays : (t : Time) (c : Call) (o : Option PaymentWebhookEvent) → Moves p e t c o o false
    is_claimed :
        (t : Time) (event : PaymentWebhookEvent) (id : ℕ) (lease_id : Text)
        (o : Option PaymentWebhookEvent)
        → is_free t lease o ≡ true
        → Moves p e t (claims event) o (row_after_claim t lease id lease_id event o) true
    is_finished :
        (t : Time) (lease_id : Text) (process_err : Option Error) (r : PaymentWebhookEvent)
        → is_held lease_id r ≡ true
        → Moves p e t
            (finishes p e lease_id process_err)
            (some r)
            (some (finished t process_err r))
            false
    is_marked :
        (t : Time) (r : PaymentWebhookEvent)
        → is_failed r.status ≡ true
        → Moves p e t (marks p e) (some r) (some (marked t r)) false
    is_cleaned :
        (t before : Time) (r : PaymentWebhookEvent)
        → is_expired before r ≡ true
        → Moves p e t (cleans before) (some r) (some (cleaned t r)) false

  -- One call keeps the index unique, and moves the row of every event by a transition.
  pub record Effect (p e : Text) (t : Time) (c : Call) (w : World) : Type 0 where
    pub keyed : IsKeyed (after lease (t, c) w).db
    pub moves :
        Moves p e t c
          (row_of p e w.db)
          (row_of p e (after lease (t, c) w).db)
          (grants lease p e (t, c) w)

  free-Moves :
      (p e : Text) (t : Time) (event : PaymentWebhookEvent) (id : ℕ) (lease_id : Text)
      (o : Option PaymentWebhookEvent)
      → Moves p e t
          (claims event)
          o
          (row_after_claim t lease id lease_id event o)
          (is_free t lease o)
  free-Moves p e t event id lease_id none = is_claimed t event id lease_id none refl
  free-Moves p e t event id lease_id (some s) = elim (Bool-cases (is_claimable t lease s)) [
    | inl h ↦
        subst
          (λ b.
            Moves p e t (claims event) (some s) (row_after_claim t lease id lease_id event (some s))
              b)
          (sym h) (is_claimed t event id lease_id (some s) h)
    | inr h ↦ rw h (stays t (claims event) (some s))
  ]

  claim-Moves :
      (p e : Text) (t : Time) (event : PaymentWebhookEvent) (w : World)
      (res : Result (Text × Bool) × World)
      → Claims event lease (record w { clock = t }) res
      → Moves p e t
          (claims event)
          (row_of p e w.db)
          (row_of p e res.1.db)
          ((event.provider == p && event.event_id == e) && is_granted res.0)
  unfolding Claims
  claim-Moves p e t event w (err x, w') c =
      elim (Bool-cases (event.provider == p && event.event_id == e)) [
        | inl h ↦ rw (h, c) (stays t (claims event) (row_of p e w.db))
        | inr h ↦ rw (h, c) (stays t (claims event) (row_of p e w.db))
      ]
  claim-Moves p e t event w (ok (lease_id, granted), w') c =
      elim (Bool-cases (event.provider == p && event.event_id == e)) [
        | inr h ↦ rw (c.1 p e, h) (stays t (claims event) (row_of p e w.db))
        | inl h ↦
            rw
              (
                at_own_key (λ a b. row_of a b w.db) (λ a b. row_of a b w'.db) event.provider
                    event.event_id p e
                    (λ a b.
                      row_after_claim t lease w.db.webhooks.next_id lease_id event
                        (row_of a b w.db))
                    h (c.1 p e),
                h,
                c.0,
                own_row h,
              )
              (free-Moves p e t event w.db.webhooks.next_id lease_id (row_of p e w.db))
      ]
    where
      own_row :
          (event.provider == p && event.event_id == e) ≡ true
          → row_of event.provider event.event_id w.db ≡ row_of p e w.db
      own_row h =
          rw
            (
              (eq_iff event.provider p).0 (and_true _ (event.event_id == e) h).0,
              (eq_iff event.event_id e).0 (and_true (event.provider == p) _ h).1,
            )
            refl

  -- A call that updates one event, for a transition that such an update is.
  change-Moves :
      (p e p' e' : Text) (t : Time) (c : Call) (g : PaymentWebhookEvent → Bool)
      (f : PaymentWebhookEvent → PaymentWebhookEvent) (missing : Sentinel) (w : World)
      (res : Result (Unit {0}) × World)
      → ((r : PaymentWebhookEvent)
          → p' ≡ p
          → e' ≡ e
          → g r ≡ true
          → Moves p e t c (some r) (some (f r)) false)
      → Changes p' e' g f missing (record w { clock = t }) res
      → Moves p e t c (row_of p e w.db) (row_of p e res.1.db) false
  unfolding Changes
  change-Moves p e p' e' t c g f missing w (err x, w') move h =
      rw (h.0.rows p e) (stays t c (row_of p e w.db))
  change-Moves p e p' e' t c g f missing w (ok u, w') move h =
      elim (Bool-cases (p' == p && e' == e)) [
        | inr n ↦ rw (h.1 p e, n) (stays t c (row_of p e w.db))
        | inl n ↦
            same (row_of p e w.db) (rw (← p_eq n, ← e_eq n) h.0)
              (at_own_key (λ a b. row_of a b w.db) (λ a b. row_of a b w'.db) p' e' p e
                (λ a b. alter f (row_of a b w.db)) n (h.1 p e))
              (p_eq n) (e_eq n)
      ]
    where
      p_eq : (p' == p && e' == e) ≡ true → p' ≡ p
      p_eq n = (eq_iff p' p).0 (and_true (p' == p) (e' == e) n).0

      e_eq : (p' == p && e' == e) ≡ true → e' ≡ e
      e_eq n = (eq_iff e' e).0 (and_true (p' == p) (e' == e) n).1

      same :
          (o : Option PaymentWebhookEvent)
          → accepts g o ≡ true
          → row_of p e w'.db ≡ alter f o
          → p' ≡ p
          → e' ≡ e
          → Moves p e t c o (row_of p e w'.db) false
      same none a d pe ee = absurd (false≢true a)
      same (some r) a d pe ee = rw d (move r pe ee a)

  finish-Moves :
      (p e p' e' lease_id : Text) (process_err : Option Error) (t : Time) (w : World)
      → IsKeyed w.db
      → Moves p e t
          (finishes p' e' lease_id process_err)
          (row_of p e w.db)
          (row_of p e (finish_webhook p' e' lease_id process_err (record w { clock = t })).1.db)
          false
  finish-Moves p e p' e' lease_id process_err t w u =
      change-Moves p e p' e' t (finishes p' e' lease_id process_err) (is_held lease_id)
        (finished t process_err) Sentinel.webhook_lease_lost w
        (finish_webhook p' e' lease_id process_err (record w { clock = t }))
        (λ r pe ee h. rw (pe, ee) (is_finished t lease_id process_err r h))
        (finish_webhook-Changes p' e' lease_id process_err (record w { clock = t }) u)

  mark-Moves :
      (p e p' e' : Text) (t : Time) (w : World)
      → IsKeyed w.db
      → Moves p e t
          (marks p' e')
          (row_of p e w.db)
          (row_of p e (mark_webhook_for_retry p' e' (record w { clock = t })).1.db)
          false
  mark-Moves p e p' e' t w u =
      change-Moves p e p' e' t (marks p' e') (λ r. is_failed r.status) (marked t)
        Sentinel.record_not_found w (mark_webhook_for_retry p' e' (record w { clock = t }))
        (λ r pe ee h. rw (pe, ee) (is_marked t r h))
        (mark_webhook_for_retry-Changes p' e' (record w { clock = t }) u)

  cleaned-KeepsKey : (t : Time) → KeepsKey (cleaned t)
  unfolding cleaned
  cleaned-KeepsKey t = record { keeps_first = λ r. refl; keeps_second = λ r. refl }

  clean_row :
      (p e : Text) (t before : Time) (o : Option PaymentWebhookEvent)
      → Moves p e t
          (cleans before)
          o
          (alter (λ r. if is_expired before r then cleaned t r else r) o)
          false
  clean_row p e t before none = stays t (cleans before) none
  clean_row p e t before (some r) = elim (Bool-cases (is_expired before r)) [
    | inl h ↦ rw h (is_cleaned t before r h)
    | inr h ↦ rw h (stays t (cleans before) (some r))
  ]

  -- What a clean-up does: the world's rows after it, on both branches of its statement.
  Cleans : Time → Time → World → Result (Unit {0}) × World → Type 0
  Cleans t before w res =
      IsKeyed res.1.db
      × ((p e : Text) → Moves p e t (cleans before) (row_of p e w.db) (row_of p e res.1.db) false)

  cleanup-Cleans :
      (t before : Time) (w : World)
      → IsKeyed w.db
      → Cleans t before w (cleanup_webhook_payloads before (record w { clock = t }))
  unfolding cleanup_webhook_payloads Cleans update_webhooks
  cleanup-Cleans t before w u = at_bind_now P _ now (
      at_bind_statement P _ _ now (λ text. (u, λ p e. stays t (cleans before) (row_of p e w.db)))
        (at_pure P tt _ (
          update-HasIndex provider_of event_of (cleaned t) (cleaned-KeepsKey t) (is_expired before)
              w.db.webhooks.rows u,
          λ p e.
              rw
                (find-update provider_of event_of (cleaned t) (cleaned-KeepsKey t) p e
                  (is_expired before) w.db.webhooks.rows)
                (clean_row p e t before (row_of p e w.db)),
        )))
    where
      now : World
      now = record w { clock = t }

      P : Result (Unit {0}) × World → Type 0
      P = Cleans t before w

  pub Changes-IsKeyed :
      (p e : Text) (g : PaymentWebhookEvent → Bool) (f : PaymentWebhookEvent → PaymentWebhookEvent)
      (missing : Sentinel) (w : World) (res : Result (Unit {0}) × World)
      → Changes p e g f missing w res
      → IsKeyed res.1.db
  unfolding Changes
  Changes-IsKeyed p e g f missing w (err x, w') h = h.0.keyed
  Changes-IsKeyed p e g f missing w (ok u, w') h = h.4

  pub Claims-IsKeyed :
      (event : PaymentWebhookEvent) (w : World) (res : Result (Text × Bool) × World)
      → IsKeyed w.db
      → Claims event lease w res
      → IsKeyed res.1.db
  unfolding Claims
  Claims-IsKeyed event w (err x, w') u h = rw h u
  Claims-IsKeyed event w (ok r, w') u h = h.4

  -- Every call of store.go, failing statements included, keeps one row for each event, and moves
  -- the row of any event by one of the transitions `Moves`, or leaves it as it was.
  pub after-Effect :
      (p e : Text) (t : Time) (c : Call) (w : World) → IsKeyed w.db → Effect p e t c w
  unfolding after grants Cleans
  after-Effect p e t (claims event) w u =
      let h = claim_webhook-Claims event lease (record w { clock = t }) u in
      record {
        keyed = Claims-IsKeyed event (record w { clock = t }) _ u h;
        moves = claim-Moves p e t event w (claim_webhook event lease (record w { clock = t })) h;
      }
  after-Effect p e t (finishes p' e' lease_id process_err) w u = record {
    keyed =
        Changes-IsKeyed p' e' _ _ _ _ _
          (finish_webhook-Changes p' e' lease_id process_err (record w { clock = t }) u);
    moves = finish-Moves p e p' e' lease_id process_err t w u;
  }
  after-Effect p e t (marks p' e') w u = record {
    keyed =
        Changes-IsKeyed p' e' _ _ _ _ _
          (mark_webhook_for_retry-Changes p' e' (record w { clock = t }) u);
    moves = mark-Moves p e p' e' t w u;
  }
  after-Effect p e t (cleans before) w u =
      let h = cleanup-Cleans t before w u in record { keyed = h.0; moves = h.1 p e }
