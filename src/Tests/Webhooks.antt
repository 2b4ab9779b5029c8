-- ===== src/Tests/Webhooks.antt =====
-- Webhook events on concrete databases.
use procyon_modules.Base.{
  ℕ, if◌then◌else◌, ◌≡◌, refl, true, false, none, some, ◌+◌, List, [], ◌∷◌, ◌⊎◌, arith,
}
use procyon_modules.Base.Int.{pos}
use procyon_modules.Base.Text.{Text, bytes, ◌==◌}
use procyon_modules.Models.{Time, WebhookStatus, PaymentWebhookEvent, is_failed}
use procyon_modules.Models.Errors.{Sentinel, sentinel, database}
use procyon_modules.Exec.{ok, err, World, ◌>>=◌, time_now, random_bytes, statement}
use procyon_modules.Store.Table.Laws.{accepts}
use procyon_modules.Store.Table.{find}
use procyon_modules.Store.Keyed.{is_key}
use procyon_modules.Store.Webhooks.{
  claim_webhook, finish_webhook, mark_webhook_for_retry, is_held, finished, marked,
  webhook_lease_id, create_webhook, hex, first_claim, update_webhooks, is_claimable,
}
use procyon_modules.Store.Webhooks.Keys.{row_of, IsKeyed}
use procyon_modules.Store.Webhooks.Claim.{is_free, Claims, claim_webhook-Claims}
use procyon_modules.Store.Webhooks.Finish.{
  Changes, finish_webhook-Changes, mark_webhook_for_retry-Changes,
}
use procyon_modules.Store.Webhooks.History.{
  Call, claims, finishes, marks, cleans, run, count_grants,
}
use procyon_modules.Store.Webhooks.History.Effect.{Effect, after-Effect}
use procyon_modules.Store.Webhooks.History.Leases.{lease_protects}
use procyon_modules.Store.Webhooks.History.Completion.{
  IsDone, processed_once, attempts_of, attempts_count_grants,
}
use procyon_modules.Store.Webhooks.History.Lifecycle.{IsRow, run-IsRow}
use procyon_modules.Exec.Reliable.{IsReliable, HasEntropy}
use procyon_modules.Store.Answers.{claim_webhook_answers, finish_webhook_answers}
use procyon_modules.Tests.{new_world, failing_world, webhook}

abbrev stripe : Text
stripe = bytes "stripe"

abbrev evt : Text
evt = bytes "evt_1"

abbrev start : World
start = new_world 100

-- The first lease id that this world draws is "00".
abbrev first_lease : Text
first_lease = bytes "00"

-- Another worker's calls while the first lease, of 50, runs.
abbrev others : List (Time × Call)
others =
    (120, claims (webhook evt))
    ∷ (130, marks stripe evt)
    ∷ (140, finishes stripe evt (bytes "11") none)
    ∷ []

claimed_first : (claim_webhook (webhook evt) (pos 50) start).0 ≡ ok (first_lease, true)
unfolding claim_webhook ◌>>=◌ time_now webhook_lease_id random_bytes statement create_webhook hex
    find
claimed_first = refl

start-IsKeyed : IsKeyed start.db
start-IsKeyed = tt

lease_protects_example :
    let w1 = (claim_webhook (webhook evt) (pos 50) start).1 in
    let w2 = run (pos 50) others w1 in
    (row_of stripe evt w2.db ≡ row_of stripe evt w1.db)
    × (((finish_webhook stripe evt first_lease none w2).0 ≡ ok tt)
        ⊎ ((text : Text) × ((finish_webhook stripe evt first_lease none w2).0
              ≡ err (database text))))
unfolding ◌==◌
lease_protects_example =
    lease_protects (webhook evt) 50 first_lease none start others start-IsKeyed claimed_first
      ((omega arith, tt), ((omega arith, tt), ((omega arith, refl), tt)))

-- The row of an event that was processed at time 110.
abbrev done : PaymentWebhookEvent
done = record (webhook evt) {
  id = 1;
  status = WebhookStatus.succeeded;
  attempts = 1;
  lease_id = first_lease;
  last_attempt_at = some 100;
  processed_at = some 110;
}

abbrev done_world : World
done_world = record start {
  db = record start.db { webhooks = record { rows = done ∷ []; next_id = 2 } };
}

done-IsKeyed : IsKeyed done_world.db
unfolding find
done-IsKeyed = (refl, tt)

done_found : row_of stripe evt done_world.db ≡ some done
unfolding find is_key ◌==◌
done_found = refl

-- A repeated delivery, a retry, and a clean-up.
abbrev repeats : List (Time × Call)
repeats = (500, claims (webhook evt)) ∷ (510, marks stripe evt) ∷ (600, cleans 400) ∷ []

processed_once_example :
    IsDone (pos 50) done (row_of stripe evt (run (pos 50) repeats done_world).db)
    × (count_grants (pos 50) stripe evt repeats done_world ≡ 0)
unfolding find is_key ◌==◌
processed_once_example =
    processed_once (pos 50) stripe evt repeats done_world done done-IsKeyed (refl, refl, refl, refl)

after-Effect_example :
    Effect (pos 50) stripe evt 140 (finishes stripe evt (bytes "11") none) done_world
after-Effect_example =
    after-Effect (pos 50) stripe evt 140 (finishes stripe evt (bytes "11") none) done_world
      done-IsKeyed

attempts_count_grants_example :
    attempts_of (pos 50) (row_of stripe evt (run (pos 50) others start).db)
    ≡ attempts_of (pos 50) (row_of stripe evt start.db)
      + count_grants (pos 50) stripe evt others start
attempts_count_grants_example = attempts_count_grants (pos 50) stripe evt others start start-IsKeyed

run-IsRow_example : IsRow (row_of stripe evt (run (pos 50) others start).db)
unfolding find
run-IsRow_example =
    run-IsRow (pos 50) stripe evt others start start-IsKeyed ((refl, refl), (tt, (tt, tt))) tt

claim_webhook-Claims_example :
    Claims (webhook evt) (pos 50) start (claim_webhook (webhook evt) (pos 50) start)
claim_webhook-Claims_example = claim_webhook-Claims (webhook evt) (pos 50) start start-IsKeyed

finish_webhook-Changes_example :
    Changes stripe evt
      (is_held first_lease)
      (finished 100 none)
      Sentinel.webhook_lease_lost
      done_world
      (finish_webhook stripe evt first_lease none done_world)
finish_webhook-Changes_example =
    finish_webhook-Changes stripe evt first_lease none done_world done-IsKeyed

mark_webhook_for_retry-Changes_example :
    Changes stripe evt
      (λ r. is_failed r.status)
      (marked 100)
      Sentinel.record_not_found
      done_world
      (mark_webhook_for_retry stripe evt done_world)
mark_webhook_for_retry-Changes_example =
    mark_webhook_for_retry-Changes stripe evt done_world done-IsKeyed

start-IsReliable : IsReliable start
start-IsReliable n = refl

start-HasEntropy : HasEntropy start
start-HasEntropy n size = (n ∷ [], refl)

-- A delivery while the lease of another worker runs is not granted.
abbrev busy : World
busy = (claim_webhook (webhook evt) (pos 50) start).1

busy-IsKeyed : IsKeyed busy.db
unfolding claim_webhook ◌>>=◌ time_now webhook_lease_id random_bytes statement create_webhook hex
    find first_claim
busy-IsKeyed = (refl, tt)

busy-IsReliable : IsReliable busy
unfolding claim_webhook ◌>>=◌ time_now webhook_lease_id random_bytes statement create_webhook hex
    find first_claim
busy-IsReliable n = refl

busy-HasEntropy : HasEntropy busy
unfolding claim_webhook ◌>>=◌ time_now webhook_lease_id random_bytes statement create_webhook hex
    find first_claim
busy-HasEntropy n size = (n ∷ [], refl)

claim_webhook_answers_example :
    (raw : List ℕ) × (busy.entropy busy.requests 16 ≡ some raw)
    × ((claim_webhook (webhook evt) (pos 50) busy).0
        ≡ ok (
            if is_free busy.clock (pos 50) (row_of stripe evt busy.db)
            then (hex raw, true)
            else ([], false)))
claim_webhook_answers_example =
    claim_webhook_answers (webhook evt) (pos 50) busy busy-IsKeyed busy-IsReliable busy-HasEntropy

finish_webhook_answers_example : (finish_webhook stripe evt first_lease none done_world).0 ≡ (
    if accepts (is_held first_lease) (row_of stripe evt done_world.db)
    then ok tt
    else err (sentinel Sentinel.webhook_lease_lost))
finish_webhook_answers_example =
    finish_webhook_answers stripe evt first_lease none done_world start-IsReliable done-IsKeyed

-- A worker that comes after the lease has run out takes the event over.
abbrev late : World
late = record (claim_webhook (webhook evt) (pos 50) start).1 { clock = 151 }

taken_over : (claim_webhook (webhook evt) (pos 50) late).0 ≡ ok (bytes "02", true)
unfolding claim_webhook ◌>>=◌ time_now webhook_lease_id random_bytes statement create_webhook hex
    find is_key ◌==◌ first_claim update_webhooks is_claimable
taken_over = refl

-- A statement that fails is the error of the call.
claim_fails :
    (claim_webhook (webhook evt) (pos 50) (failing_world 100 1)).0 ≡ err (database (bytes "down"))
unfolding claim_webhook ◌>>=◌ time_now webhook_lease_id random_bytes statement create_webhook hex
    find
claim_fails = refl
