-- ===== src/Store/Webhooks/History/Lifecycle.antt =====
-- The life cycle of a webhook row: PROCESSING under a lease, SUCCEEDED or FAILED, with the columns
-- that belong to each state.
use procyon_modules.Base.{
  ◌≤◌, ◌≡◌, refl, Bool, true, false, Option, none, some, List, [], ◌∷◌, arith, All, length,
  length-take-le,
}
use procyon_modules.Base.Int.{ℤ}
use procyon_modules.Base.Text.{Text}
use procyon_modules.Models.{Time, WebhookStatus, PaymentWebhookEvent, is_succeeded, is_failed}
use procyon_modules.Models.Errors.{error_text}
use procyon_modules.Exec.{World}
use procyon_modules.Store.Webhooks.{
  is_held, is_expired, is_claimable, first_claim, claimed, finished, marked, cleaned,
}
use procyon_modules.Store.Webhooks.Keys.{row_of, IsKeyed}
use procyon_modules.Store.Webhooks.History.{Call, claims, finishes, marks, cleans, after, run}
use procyon_modules.Store.Webhooks.History.Effect.{
  Moves, stays, is_claimed, is_finished, is_marked, is_cleaned, Effect, after-Effect,
}

abbrev is_set : Option Time → Bool
is_set none = false
is_set (some t) = true

-- Is the processing clock running, and has the event been processed, as the status says?
abbrev pub HasPhase : WebhookStatus → Bool → Bool → Type 0
HasPhase WebhookStatus.processing started processed = (started ≡ true) × (processed ≡ false)
HasPhase WebhookStatus.succeeded started processed = (started ≡ false) × (processed ≡ true)
HasPhase WebhookStatus.failed started processed = (started ≡ false) × (processed ≡ false)
HasPhase (WebhookStatus.other text) started processed = ⊥

pub record IsWellFormed (r : PaymentWebhookEvent) : Type 0 where
  pub phase : HasPhase r.status (is_set r.processing_started_at) (is_set r.processed_at)
  pub bounded : length r.last_error ≤ 4096
  pub attempted : 1 ≤ r.attempts

abbrev pub IsRow : Option PaymentWebhookEvent → Type 0
IsRow none = Unit
IsRow (some r) = IsWellFormed r

unprocessed :
    (s : WebhookStatus) (started processed : Bool)
    → HasPhase s started processed
    → is_succeeded s ≡ false
    → processed ≡ false
unprocessed WebhookStatus.processing started processed h n = h.1
unprocessed WebhookStatus.succeeded started processed h n = cc
unprocessed WebhookStatus.failed started processed h n = h.1
unprocessed (WebhookStatus.other text) started processed h n = absurd h

failed_stopped :
    (s : WebhookStatus) (processed started : Bool)
    → HasPhase s started processed
    → is_failed s ≡ true
    → HasPhase s false processed
failed_stopped WebhookStatus.failed processed started h f = (refl, h.1)
failed_stopped WebhookStatus.processing processed started h f = cc
failed_stopped WebhookStatus.succeeded processed started h f = cc
failed_stopped (WebhookStatus.other text) processed started h f = absurd h

-- The providers hand `ClaimWebhook` an event with only its key, type, payload and signature set.
abbrev pub IsFresh : Call → Type 0
IsFresh (claims event) = (event.last_error ≡ []) × (event.processed_at ≡ none)
IsFresh (finishes p e l process_err) = Unit
IsFresh (marks p e) = Unit
IsFresh (cleans before) = Unit

module _ (lease : ℤ) where
  claimed-IsWellFormed :
      (t : Time) (l : Text) (event r : PaymentWebhookEvent)
      → is_claimable t lease r ≡ true
      → IsWellFormed r
      → IsWellFormed (claimed t l event r)
  unfolding is_claimable claimed
  claimed-IsWellFormed t l event r free h = record {
    phase = (refl, unprocessed r.status _ _ h.phase (ground arith));
    bounded = omega arith;
    attempted = omega arith;
  }

  move-IsRow :
      {p e : Text} {t : Time} {c : Call} {o o' : Option PaymentWebhookEvent} {b : Bool}
      → Moves lease p e t c o o' b
      → IsFresh c
      → IsRow o
      → IsRow o'
  unfolding is_held is_claimable is_expired first_claim finished marked cleaned
  move-IsRow (stays t c o) f h = h
  move-IsRow (is_claimed t event id l none free) f h = ground arith
  move-IsRow (is_claimed t event id l (some s) free) f h =
      rw free (claimed-IsWellFormed t l event s free h)
  move-IsRow (is_finished t l none s g) f h = ground arith
  move-IsRow (is_finished t l (some x) s g) f h = record {
    phase = (refl, unprocessed s.status _ _ h.phase (ground arith));
    bounded = length-take-le 4096 (error_text x);
    attempted = h.attempted;
  }
  move-IsRow (is_marked t s g) f h = record {
    phase = failed_stopped s.status (is_set s.processed_at) _ h.phase g;
    bounded = h.bounded;
    attempted = h.attempted;
  }
  move-IsRow (is_cleaned t before s g) f h = record {
    phase = h.phase;
    bounded = h.bounded;
    attempted = h.attempted;
  }

  -- With unique keys and claims that bring no error text and no time of processing, every history
  -- of calls keeps every row that is well formed so: one of the three states, with a running
  -- clock exactly while it is processed, a time of processing exactly once it has succeeded, an
  -- error text of at most 4096 bytes and at least one attempt.
  pub run-IsRow :
      (p e : Text) (cs : List (Time × Call)) (w : World)
      → IsKeyed w.db
      → All (λ c. IsFresh c.1) cs
      → IsRow (row_of p e w.db)
      → IsRow (row_of p e (run lease cs w).db)
  unfolding run
  run-IsRow p e [] w u f h = h
  run-IsRow p e ((t, c) ∷ cs) w u f h =
      let fx : Effect lease p e t c w = after-Effect lease p e t c w u in
      run-IsRow p e cs (after lease (t, c) w) fx.keyed f.1 (move-IsRow fx.moves f.0 h)
