-- ===== src/Store/Webhooks/History/Leases.antt =====
-- Leases on webhook events against the calls of other workers, over histories of the webhook calls
-- of store.go.
use procyon_modules.Base.{
  ℕ, ◌+◌, ◌≤◌, ◌≡◌, refl, sym, ap, ◌∙◌, Bool, true, false, ◌&&◌, Option, none, some, List, [], ◌∷◌,
  arith, inl, inr, ◌⊎◌, All,
}
use procyon_modules.Base.Int.{ℤ, pos}
use procyon_modules.Base.Text.{Text, ◌==◌, eq_iff, eq_refl}
use procyon_modules.Models.{Time, PaymentWebhookEvent}
use procyon_modules.Models.Errors.{Sentinel, Error, database}
use procyon_modules.Exec.{Result, ok, err, World}
use mathlib.Core.Bool.{false≢true}
use procyon_modules.Store.Keyed.Laws.{at_own_key}
use procyon_modules.Store.Table.Laws.{accepts}
use procyon_modules.Store.Webhooks.{
  is_held, is_expired, is_claimable, started_before, first_claim, claimed, claim_webhook,
  finish_webhook, finished,
}
use procyon_modules.Store.Webhooks.Keys.{row_of, IsKeyed}
use procyon_modules.Store.Webhooks.Claim.{is_free, row_after_claim, Claims, claim_webhook-Claims}
use procyon_modules.Store.Webhooks.Finish.{Changes, finish_webhook-Changes}
use procyon_modules.Store.Webhooks.History.{Call, claims, finishes, marks, cleans, after, run}
use procyon_modules.Store.Webhooks.History.Effect.{
  Moves, stays, is_claimed, is_finished, is_marked, is_cleaned, Effect, after-Effect,
  Claims-IsKeyed,
}

-- The call does not end a processing under this lease.
abbrev pub IsNotFinish : Text → Call → Type 0
IsNotFinish lease_id (finishes p e l process_err) = (l == lease_id) ≡ false
IsNotFinish lease_id (claims event) = Unit
IsNotFinish lease_id (marks p e) = Unit
IsNotFinish lease_id (cleans before) = Unit

module _ (lease : ℤ) (lease_id : Text) where
  -- A call by another worker, while the lease on the row `r` has not run out.
  abbrev pub IsForeign : PaymentWebhookEvent → Time × Call → Type 0
  IsForeign r (t, c) =
      (started_before r.processing_started_at t lease ≡ false) × IsNotFinish lease_id c

  held_stays :
      {p e : Text} {t : Time} {c : Call} {o o' : Option PaymentWebhookEvent} {b : Bool}
      (r : PaymentWebhookEvent)
      → Moves lease p e t c o o' b
      → o ≡ some r
      → is_held lease_id r ≡ true
      → IsForeign r (t, c)
      → o' ≡ some r
  unfolding is_held is_claimable is_expired
  held_stays r (stays t c o) h held foreign = h
  held_stays r (is_claimed t event id l o free) h held foreign = absurd (ground arith)
  held_stays r (is_finished t l x s g) h held foreign =
      absurd (ground (arith, eq_iff s.lease_id l, eq_iff r.lease_id lease_id, eq_iff l lease_id))
  held_stays r (is_marked t s g) h held foreign = absurd (ground arith)
  held_stays r (is_cleaned t before s g) h held foreign = absurd (ground arith)

  run_held :
      (p e : Text) (cs : List (Time × Call)) (w : World) (r : PaymentWebhookEvent)
      → IsKeyed w.db
      → row_of p e w.db ≡ some r
      → is_held lease_id r ≡ true
      → All (IsForeign r) cs
      → (row_of p e (run lease cs w).db ≡ some r) × IsKeyed (run lease cs w).db
  unfolding run
  run_held p e [] w r u h held foreign = (h, u)
  run_held p e ((t, c) ∷ cs) w r u h held foreign =
      let fx : Effect lease p e t c w = after-Effect lease p e t c w u in
      run_held p e cs (after lease (t, c) w) r fx.keyed (held_stays r fx.moves h held foreign.0)
        held foreign.1

-- What a grant leaves behind: a row under the lease, whose clock starts now.
granted_row :
    (now : Time) (lease : ℤ) (id : ℕ) (lease_id : Text) (event : PaymentWebhookEvent)
    (o : Option PaymentWebhookEvent)
    → is_free now lease o ≡ true
    → (r : PaymentWebhookEvent) × (row_after_claim now lease id lease_id event o ≡ some r)
      × (is_held lease_id r ≡ true)
      × (r.processing_started_at ≡ some now)
unfolding is_held first_claim claimed
granted_row now lease id lease_id event none free = (_, refl, eq_refl lease_id, refl)
granted_row now lease id lease_id event (some r) free =
    (claimed now lease_id event r, ground arith, eq_refl lease_id, refl)

claim_granted :
    (event : PaymentWebhookEvent) (lease : ℤ) (w : World) (lease_id : Text)
    (res : Result (Text × Bool) × World)
    → Claims event lease w res
    → res.0 ≡ ok (lease_id, true)
    → (r : PaymentWebhookEvent) × (row_of event.provider event.event_id res.1.db ≡ some r)
      × (is_held lease_id r ≡ true)
      × (r.processing_started_at ≡ some w.clock)
unfolding Claims
claim_granted event lease w lease_id (err x, w') c e = cc
claim_granted event lease w lease_id (ok (l, false), w') c e = absurd (ground arith)
claim_granted event lease w lease_id (ok (l, true), w') c e =
    let l_eq : l ≡ lease_id = ground arith in
    let (r, row, held, started) =
      granted_row w.clock lease w.db.webhooks.next_id l event
        (row_of event.provider event.event_id w.db) (sym c.0) in
    (
      r,
      at_own_key (λ a b. row_of a b w.db) (λ a b. row_of a b w'.db) event.provider event.event_id
            event.provider event.event_id after_claim itself (c.1 event.provider event.event_id)
          ∙ row,
      rw (← l_eq) held,
      started,
    )
  where
    after_claim : Text → Text → Option PaymentWebhookEvent
    after_claim p e = row_after_claim w.clock lease w.db.webhooks.next_id l event (row_of p e w.db)

    itself : (event.provider == event.provider && event.event_id == event.event_id) ≡ true
    itself = rw (eq_refl event.provider, eq_refl event.event_id) refl

-- A call that finds its row fails only by the driver's error.
pub found_outcome :
    (p e : Text) (g : PaymentWebhookEvent → Bool) (f : PaymentWebhookEvent → PaymentWebhookEvent)
    (missing : Sentinel) (w : World) (res : Result (Unit {0}) × World)
    → Changes p e g f missing w res
    → accepts g (row_of p e w.db) ≡ true
    → (res.0 ≡ ok tt) ⊎ ((text : Text) × (res.0 ≡ err (database text)))
unfolding Changes
found_outcome p e g f missing w (ok u, w') h a = inl refl
found_outcome p e g f missing w (err x, w') h a = elim h.1 [
  | inl (text, q) ↦ inr (text, ap err q)
  | inr (q, n) ↦ absurd (false≢true (sym n ∙ a))
]

-- A call by another worker, within `lease` of the time `now`.
abbrev pub IsWithin : Time → ℕ → Text → Time × Call → Type 0
IsWithin now lease lease_id (t, c) = (t ≤ now + lease) × IsNotFinish lease_id c

within-IsForeign :
    (now : Time) (lease : ℕ) (lease_id : Text) (r : PaymentWebhookEvent) (cs : List (Time × Call))
    → r.processing_started_at ≡ some now
    → All (IsWithin now lease lease_id) cs
    → All (IsForeign (pos lease) lease_id r) cs
within-IsForeign now lease lease_id r [] s h = tt
within-IsForeign now lease lease_id r ((t, c) ∷ cs) s h =
    ((rw s (ground (arith, h.0)), h.0.1), within-IsForeign now lease lease_id r cs s h.1)

-- With unique keys, once a claim has granted a lease, then whatever calls other workers make before the lease runs
-- out, with whatever statements failing, leave the event's row as the claim wrote it; and the
-- worker's own `FinishWebhook` after them succeeds, unless the driver reports an error.
pub lease_protects :
    (event : PaymentWebhookEvent) (lease : ℕ) (lease_id : Text) (process_err : Option Error)
    (w : World) (cs : List (Time × Call))
    → IsKeyed w.db
    → (claim_webhook event (pos lease) w).0 ≡ ok (lease_id, true)
    → All (IsWithin w.clock lease lease_id) cs
    → let p = event.provider in
      let e = event.event_id in
      let w1 = (claim_webhook event (pos lease) w).1 in
      let w2 = run (pos lease) cs w1 in
      (row_of p e w2.db ≡ row_of p e w1.db)
      × (((finish_webhook p e lease_id process_err w2).0 ≡ ok tt)
          ⊎ ((text : Text) × ((finish_webhook p e lease_id process_err w2).0
                ≡ err (database text))))
lease_protects event lease lease_id process_err w cs u granted within =
    let p = event.provider in
    let e = event.event_id in
    let w1 : World = (claim_webhook event (pos lease) w).1 in
    let w2 : World = run (pos lease) cs w1 in
    let claim = claim_webhook-Claims event (pos lease) w u in
    let (r, row, held, started) =
      claim_granted event (pos lease) w lease_id (claim_webhook event (pos lease) w) claim
        granted in
    let (kept, keyed) =
      run_held (pos lease) lease_id p e cs w1 r
        (Claims-IsKeyed (pos lease) event w (claim_webhook event (pos lease) w) u claim) row held
        (within-IsForeign w.clock lease lease_id r cs started within) in
    (
      kept ∙ sym row,
      found_outcome p e (is_held lease_id) (finished w2.clock process_err)
          Sentinel.webhook_lease_lost w2 (finish_webhook p e lease_id process_err w2)
          (finish_webhook-Changes p e lease_id process_err w2 keyed)
          (ap (accepts (is_held lease_id)) kept ∙ held),
    )
