-- ===== src/Providers/Stripe/Reports.antt =====
-- What the events of provider_stripe.go about intents, refunds and disputes make of the payments that
-- are kept.
use procyon_modules.Base.{
  ◌≡◌, refl, sym, ap, ◌∙◌, subst, Bool, true, false, Option, none, some, if◌then◌else◌,
}
use procyon_modules.Base.Text.{Text, is_empty}
use procyon_modules.Models.{PaymentStatus, PaymentEvent}
use procyon_modules.Exec.{Result, ok, err, World, Exec, ◌>>=◌, pure, raise, from}
use procyon_modules.Exec.Rules.{at_bind, at_bind_statement, bind_returns, from_bind_returns}
use procyon_modules.Store.Webhooks.{or_not_found}
use procyon_modules.Store.Payments.{find_payment, upsert_payment, get_payment}
use procyon_modules.Store.Payments.Settled.{settled, upserted_settled}
use procyon_modules.Store.Payments.Upsert.{payment_of, HasPayments}
use procyon_modules.Providers.Calls.{Metadata, get, attempt}
use procyon_modules.Providers.Stripe.{
  PaymentIntent, Refund, Dispute, StripeEvent, StripePaymentProvider, stripe,
}
use procyon_modules.Providers.Stripe.Subscriptions.{identity_key}
use procyon_modules.Providers.Stripe.Events.{
  Topic, topic_of, identity_of, intent_owner, intent_status, refund_payment_status,
  dispute_payment_status, reversal_owner, handle_intent, handle_refund, handle_dispute, handle_kind,
  handle_stripe_event,
}

-- The row of a payment has the status that the report leaves.
abbrev pub Settles : Text → PaymentStatus → World → World → Type 0
Settles id status w w' =
    (r : PaymentEvent) × (payment_of stripe id w'.db ≡ some r)
    × (r.status ≡ settled (payment_of stripe id w.db) status)

upsert_payment-Settles :
    (payment : PaymentEvent) (w w' : World)
    → HasPayments w.db
    → payment.provider ≡ stripe
    → upsert_payment payment w ≡ (ok tt, w')
    → Settles payment.external_id payment.status w w'
upsert_payment-Settles payment w w' v s h =
    let (r, found, status) = upserted_settled payment w w' v h in
    (
      r,
      ap (λ a. payment_of a payment.external_id w'.db) (sym s) ∙ found,
      status ∙ ap (λ a. settled (payment_of a payment.external_id w.db) payment.status) s,
    )

-- The call has left the tables.
abbrev KeepsDb : {A : Type 0} → World → Result A × World → Type 0
KeepsDb w res = res.1.db ≡ w.db

found-KeepsDb :
    (o : Option PaymentEvent) (w w' : World) → w'.db ≡ w.db → KeepsDb w (or_not_found o w')
unfolding or_not_found raise pure
found-KeepsDb none w w' h = h
found-KeepsDb (some r) w w' h = h

get_payment-KeepsDb :
    (provider external_id : Text) (w : World) → KeepsDb w (get_payment provider external_id w)
unfolding get_payment find_payment
get_payment-KeepsDb provider external_id w =
    at_bind_statement (KeepsDb w) (find_payment provider external_id) or_not_found w (λ text. refl)
      (found-KeepsDb _ w _ refl)

if-KeepsDb :
    {A : Type 0} (b : Bool) (m n : Exec A) (w : World)
    → KeepsDb w (m w)
    → KeepsDb w (n w)
    → KeepsDb w ((if b then m else n) w)
if-KeepsDb true m n w h k = h
if-KeepsDb false m n w h k = k

same_report :
    (a c : Text) (b d : PaymentStatus)
    → ◌≡◌ {A = Option (Text × PaymentStatus)} (some (a, b)) (some (c, d))
    → (a ≡ c) × (b ≡ d)
same_report a c b d h = (cc, cc)

module _ (p : StripePaymentProvider) where
  -- The payment that an event of this topic is about, and the status that it reports.
  abbrev pub intent_report : StripeEvent → Result PaymentIntent → Option (Text × PaymentStatus)
  intent_report event (err e) = none
  intent_report event (ok intent) = some (intent.id, intent_status event.kind)

  abbrev pub refund_report : Result Refund → Option (Text × PaymentStatus)
  refund_report (err e) = none
  refund_report (ok refund) = some (refund.id, refund_payment_status refund.status)

  abbrev pub dispute_report : Result Dispute → Option (Text × PaymentStatus)
  dispute_report (err e) = none
  dispute_report (ok dispute) = some (dispute.id, dispute_payment_status dispute.status)

  abbrev pub report : StripeEvent → Topic → Option (Text × PaymentStatus)
  report event Topic.about_intent = intent_report event (p.unmarshal_intent event.raw)
  report event Topic.about_refund = refund_report (p.unmarshal_refund event.raw)
  report event Topic.about_dispute = dispute_report (p.unmarshal_dispute event.raw)
  report event _ = none

  intent_owner-KeepsDb :
      (intent : Option PaymentIntent) (w : World) → KeepsDb w (intent_owner p intent w)
  unfolding pure
  intent_owner-KeepsDb none w = refl
  intent_owner-KeepsDb (some intent) w =
      if-KeepsDb (is_empty (get intent.metadata identity_key))
        (attempt (get_payment stripe intent.id) >>= λ o. pure (identity_of p o))
        (pure (get intent.metadata identity_key)) w
        (at_bind (KeepsDb w) (attempt (get_payment stripe intent.id)) _ w
          (λ x w' q. ap (λ r. r.1.db) (sym q) ∙ get_payment-KeepsDb stripe intent.id w)
          (λ o w' q. ap (λ r. r.1.db) (sym q) ∙ get_payment-KeepsDb stripe intent.id w))
        refl

  reversal_owner-KeepsDb :
      (metadata : Metadata) (intent : Option PaymentIntent) (w : World)
      → KeepsDb w (reversal_owner p metadata intent w)
  unfolding reversal_owner pure
  reversal_owner-KeepsDb metadata intent w =
      if-KeepsDb (is_empty (get metadata identity_key)) (intent_owner p intent)
        (pure (get metadata identity_key)) w (intent_owner-KeepsDb intent w) refl

  module _ (event : StripeEvent) (w w' : World) (v : HasPayments w.db) where
    intent-Settles :
        (intent : PaymentIntent)
        → handle_intent p event intent w ≡ (ok tt, w')
        → Settles intent.id (intent_status event.kind) w w'
    unfolding handle_intent
    intent-Settles intent h = upsert_payment-Settles _ w w' v refl h

    -- An owner is looked for, and a payment kept that is of this id and status, whoever it is.
    reversal-Settles :
        (owner : Exec Text) (payment : Text → PaymentEvent) (id : Text) (status : PaymentStatus)
        → KeepsDb w (owner w)
        → ((who : Text)
            → ((payment who).provider ≡ stripe)
              × ((payment who).external_id ≡ id)
              × ((payment who).status ≡ status))
        → (owner >>= λ who. upsert_payment (payment who)) w ≡ (ok tt, w')
        → Settles id status w w'
    reversal-Settles owner payment id status k columns h =
        let (who, w1, named, kept) = bind_returns owner _ w tt w' h in
        let same : w1.db ≡ w.db = ap (λ r. r.1.db) (sym named) ∙ k in
        let (s, e, t) = columns who in
        let (r, found, after) =
          upsert_payment-Settles (payment who) w1 w' (subst HasPayments (sym same) v) s kept in
        (
          r,
          ap (λ b. payment_of stripe b w'.db) (sym e) ∙ found,
          after
              ∙ ap (λ b. settled (payment_of stripe b w1.db) (payment who).status) e
              ∙ ap (λ c. settled (payment_of stripe id w1.db) c) t
              ∙ ap (λ db. settled (payment_of stripe id db) status) same,
        )

    refund-Settles :
        (refund : Refund)
        → handle_refund p event refund w ≡ (ok tt, w')
        → Settles refund.id (refund_payment_status refund.status) w w'
    unfolding handle_refund
    refund-Settles refund h =
        reversal-Settles _ _ _ _ (reversal_owner-KeepsDb refund.metadata refund.payment_intent w)
          (λ who. (refl, refl, refl)) h

    dispute-Settles :
        (dispute : Dispute)
        → handle_dispute p event dispute w ≡ (ok tt, w')
        → Settles dispute.id (dispute_payment_status dispute.status) w w'
    unfolding handle_dispute
    dispute-Settles dispute h =
        reversal-Settles _ _ _ _ (reversal_owner-KeepsDb dispute.metadata dispute.payment_intent w)
          (λ who. (refl, refl, refl)) h

    -- A value that has been read, and what its handler has settled.
    read-Settles :
        {A : Type 0} (read : Result A) (handler : A → Exec (Unit {0}))
        (told : Result A → Option (Text × PaymentStatus)) (id : Text) (status : PaymentStatus)
        → ((a : A)
            → told (ok a) ≡ some (id, status)
            → handler a w ≡ (ok tt, w')
            → Settles id status w w')
        → told read ≡ some (id, status)
        → (from read >>= handler) w ≡ (ok tt, w')
        → Settles id status w w'
    read-Settles read handler told id status settles t h =
        let (a, given, handled) = from_bind_returns read handler w tt w' h in
        settles a (ap told (sym given) ∙ t) handled

    as_told :
        (id id' : Text) (status status' : PaymentStatus)
        → ◌≡◌ {A = Option (Text × PaymentStatus)} (some (id, status)) (some (id', status'))
        → Settles id status w w'
        → Settles id' status' w w'
    as_told id id' status status' t s =
        let (a, b) = same_report id id' status status' t in
        subst (λ i. Settles i status' w w') a (subst (λ c. Settles id c w w') b s)

    handled :
        (topic : Topic) (id : Text) (status : PaymentStatus)
        → report event topic ≡ some (id, status)
        → handle_kind p event topic w ≡ (ok tt, w')
        → Settles id status w w'
    handled Topic.about_intent id status told h =
        read-Settles (p.unmarshal_intent event.raw) (handle_intent p event) (intent_report event) id
          status (λ a t k. as_told _ _ _ _ t (intent-Settles a k)) told h
    handled Topic.about_refund id status told h =
        read-Settles (p.unmarshal_refund event.raw) (handle_refund p event) refund_report id status
          (λ a t k. as_told _ _ _ _ t (refund-Settles a k)) told h
    handled Topic.about_dispute id status told h =
        read-Settles (p.unmarshal_dispute event.raw) (handle_dispute p event) dispute_report id
          status (λ a t k. as_told _ _ _ _ t (dispute-Settles a k)) told h
    handled Topic.about_checkout id status told h = cc
    handled Topic.about_subscription id status told h = cc
    handled Topic.ignored id status told h = cc
    handled (Topic.about_invoice paid) id status told h = cc

    -- Where an event about an intent, a refund or a dispute has been handled, the payment under its
    -- id has the status that the event reports, unless one with a higher rank was kept: a failure
    -- outlasts a later success, an open dispute one that is won, and a refund one that fails.
    pub handle_stripe_event-Settles :
        (id : Text) (status : PaymentStatus)
        → report event (topic_of event.kind) ≡ some (id, status)
        → handle_stripe_event p event w ≡ (ok tt, w')
        → Settles id status w w'
    unfolding handle_stripe_event
    handle_stripe_event-Settles id status told h = handled (topic_of event.kind) id status told h
