-- ===== src/Store/Webhooks/History/Completion.antt =====
-- Processed events and the count of the attempts, over histories of the webhook calls of store.go.
use procyon_modules.Base.{
  ℕ, ◌+◌, ◌≡◌, refl, Bool, false, Option, none, some, List, [], ◌∷◌, arith, if◌then◌else◌,
}
use procyon_modules.Base.Int.{ℤ}
use procyon_modules.Base.Text.{Text}
use procyon_modules.Models.{Time, WebhookStatus, PaymentWebhookEvent}
use procyon_modules.Exec.{World}
use procyon_modules.Store.Webhooks.{
  is_held, is_expired, is_claimable, first_claim, claimed, finished, marked, cleaned,
}
use procyon_modules.Store.Webhooks.Keys.{row_of, IsKeyed}
use procyon_modules.Store.Webhooks.History.{Call, after, run, count_grants}
use procyon_modules.Store.Webhooks.History.Effect.{
  Moves, stays, is_claimed, is_finished, is_marked, is_cleaned, Effect, after-Effect,
}

module _ (lease : ℤ) where
  -- The row of an event that has been processed: its status, when that was, and its attempts.
  abbrev pub IsDone : PaymentWebhookEvent → Option PaymentWebhookEvent → Type 0
  IsDone r none = ⊥
  IsDone r (some s) =
      (s.status ≡ WebhookStatus.succeeded)
      × (s.processed_at ≡ r.processed_at)
      × (s.attempts ≡ r.attempts)
      × (s.last_error ≡ r.last_error)

  stays-IsDone :
      {p e : Text} {t : Time} {c : Call} {o o' : Option PaymentWebhookEvent} {b : Bool}
      (r : PaymentWebhookEvent)
      → Moves lease p e t c o o' b
      → IsDone r o
      → IsDone r o' × (b ≡ false)
  unfolding is_held is_claimable is_expired
  stays-IsDone r (stays t c o) d = (d, refl)
  stays-IsDone r (is_claimed t event id l none free) d = absurd d
  stays-IsDone r (is_claimed t event id l (some s) free) d = absurd (ground arith)
  stays-IsDone r (is_finished t l x s g) d = absurd (ground arith)
  stays-IsDone r (is_marked t s g) d = absurd (ground arith)
  stays-IsDone r (is_cleaned t before s g) d = (unfold cleaned in d, refl)

  -- With unique keys and one lease duration for all claims, an event that has been processed
  -- successfully stays so under every history of calls, with its
  -- time of processing, its attempts and its error text, and no lease on it is granted again: it
  -- is processed once.
  pub processed_once :
      (p e : Text) (cs : List (Time × Call)) (w : World) (r : PaymentWebhookEvent)
      → IsKeyed w.db
      → IsDone r (row_of p e w.db)
      → IsDone r (row_of p e (run lease cs w).db) × (count_grants lease p e cs w ≡ 0)
  unfolding run count_grants
  processed_once p e [] w r u d = (d, refl)
  processed_once p e ((t, c) ∷ cs) w r u d =
      let fx : Effect lease p e t c w = after-Effect lease p e t c w u in
      let (d', none_granted) = stays-IsDone r fx.moves d in
      let (d'', rest) = processed_once p e cs (after lease (t, c) w) r fx.keyed d' in
      (d'', rw (none_granted, rest) (omega arith))

  abbrev pub attempts_of : Option PaymentWebhookEvent → ℕ
  attempts_of none = 0
  attempts_of (some r) = r.attempts

  move_attempts :
      {p e : Text} {t : Time} {c : Call} {o o' : Option PaymentWebhookEvent} {b : Bool}
      → Moves lease p e t c o o' b
      → attempts_of o' ≡ attempts_of o + (if b then 1 else 0)
  unfolding first_claim claimed finished marked cleaned
  move_attempts (stays t c o) = omega arith
  move_attempts (is_claimed t event id l none free) = omega arith
  move_attempts (is_claimed t event id l (some s) free) = ground arith
  move_attempts (is_finished t l none s g) = omega arith
  move_attempts (is_finished t l (some x) s g) = omega arith
  move_attempts (is_marked t s g) = omega arith
  move_attempts (is_cleaned t before s g) = omega arith

  -- The attempts of an event count the leases that were granted on it: each grant adds one, and
  -- nothing else changes them.
  pub attempts_count_grants :
      (p e : Text) (cs : List (Time × Call)) (w : World)
      → IsKeyed w.db
      → attempts_of (row_of p e (run lease cs w).db)
        ≡ attempts_of (row_of p e w.db) + count_grants lease p e cs w
  unfolding run count_grants
  attempts_count_grants p e [] w u = omega arith
  attempts_count_grants p e ((t, c) ∷ cs) w u =
      let fx : Effect lease p e t c w = after-Effect lease p e t c w u in
      omega (
        arith,
        attempts_count_grants p e cs (after lease (t, c) w) fx.keyed,
        move_attempts fx.moves,
      )
