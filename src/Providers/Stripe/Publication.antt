-- ===== src/Providers/Stripe/Publication.antt =====
-- The publication of completed purchases by the checkouts of provider_stripe.go.
use procyon_modules.Base.{
  ◌≡◌, refl, sym, ap, ◌∙◌, Bool, true, false, ◌⊎◌, inl, inr, Option, none, some, arith, Bool-cases,
}
use procyon_modules.Base.Text.{Text, bytes, is_empty, trim_space, eq_iff}
use procyon_modules.Models.{Time, PaymentEvent}
use procyon_modules.Exec.{Result, ok, err, World, Exec, ◌>>=◌, ◌>>◌}
use procyon_modules.Exec.Rules.{require_returns, from_returns, bind_returns}
use procyon_modules.Config.{Product}
use procyon_modules.Store.Payments.{upsert_payment}
use procyon_modules.Providers.Calls.{Metadata, get, product_at}
use procyon_modules.Providers.Stripe.{
  EventType, CheckoutMode, CheckoutPaymentStatus, CheckoutSession, PurchaseMessage,
  purchase_completed_v1_topic, StripePaymentProvider,
}
use procyon_modules.Providers.Stripe.Subscriptions.{identity_key, follow_subscription}
use procyon_modules.Providers.Stripe.Purchases.{
  is_purchase, stripe_checkout_payment_status, checkout_payment, checkout_price, checkout_product,
  purchase_message, publish, purchased, handle_stripe_checkout,
}

abbrev Bus : Type 0
Bus = Option (Text → PurchaseMessage → Exec (Unit {0}))

-- Does the event, or else the session, say that nothing is left to pay?
abbrev pub is_settled : EventType → CheckoutPaymentStatus → Bool
is_settled EventType.checkout_session_async_payment_failed status = false
is_settled EventType.checkout_session_async_payment_succeeded status = true
is_settled _ (CheckoutPaymentStatus.other text) = false
is_settled _ _ = true

purchase_settled :
    (session : CheckoutSession) (kind : EventType)
    → is_purchase session kind ≡ true
    → (session.mode ≡ CheckoutMode.payment) × (is_settled kind session.payment_status ≡ true)
unfolding is_purchase stripe_checkout_payment_status
purchase_settled session kind h = ground (arith, h)

-- The provider without its event bus.
abbrev pub silent : StripePaymentProvider → StripePaymentProvider
silent p = record p { event_bus = none }

module _ {A : Type 0} (m : Exec A) (keep : A → Exec (Unit {0})) (message : A → PurchaseMessage)
    (w : World) where
  abbrev run : Bus → Result (Unit {0}) × World
  run bus = (m >>= λ a. keep a >> publish bus (message a)) w

  -- The bus has been given the message after both of the other calls have returned.
  abbrev Sends : Bus → Type 0
  Sends bus =
      (send : Text → PurchaseMessage → Exec (Unit {0})) × (a : A) × (w1 : World) × (w2 : World)
      × (bus ≡ some send)
      × (m w ≡ (ok a, w1))
      × (keep a w1 ≡ (ok tt, w2))
      × (run bus ≡ send purchase_completed_v1_topic (message a) w2)

  run-Sends : (bus : Bus) → (run bus ≡ run none) ⊎ Sends bus
  unfolding ◌>>=◌
  run-Sends none = inl refl
  run-Sends (some send) = first (m w) refl
    where
      rest : Result (Unit {0}) × World → A → Bus → Result (Unit {0}) × World
      rest kept a bus = elim kept.0 [
        | ok u ↦ publish bus (message a) kept.1
        | err e ↦ (err e, kept.1)
      ]

      body : Result A × World → Bus → Result (Unit {0}) × World
      body found bus = elim found.0 [
        | ok a ↦ rest (keep a found.1) a bus
        | err e ↦ (err e, found.1)
      ]

      SendsFrom : Result A × World → Type 0
      SendsFrom found =
          (a : A) × (w1 : World) × (w2 : World) × (found ≡ (ok a, w1))
          × (keep a w1 ≡ (ok tt, w2))
          × (body found (some send) ≡ send purchase_completed_v1_topic (message a) w2)

      second :
          (a : A) (w1 : World) (kept : Result (Unit {0}) × World)
          → keep a w1 ≡ kept
          → (rest kept a (some send) ≡ rest kept a none)
            ⊎ ((w2 : World) × (kept ≡ (ok tt, w2))
                × (rest kept a (some send) ≡ send purchase_completed_v1_topic (message a) w2))
      second a w1 (err e, w2) h = inl refl
      second a w1 (ok u, w2) h = inr (w2, refl, refl)

      first :
          (found : Result A × World)
          → m w ≡ found
          → (run (some send) ≡ run none) ⊎ Sends (some send)
      first (err e, w1) h = inl (ap (λ f. body f (some send)) h ∙ sym (ap (λ f. body f none) h))
      first (ok a, w1) h = elim (second a w1 (keep a w1) refl) [
        | inl same ↦ inl (ap (λ f. body f (some send)) h ∙ same ∙ sym (ap (λ f. body f none) h))
        | inr (w2, kept, sent) ↦
            inr (send, a, w1, w2, refl, h, kept, ap (λ f. body f (some send)) h ∙ sent)
      ]

-- What is known of a purchase once its product has been found.
purchased_product :
    (metadata : Metadata) (price price' : Text) (o : Option Product) (q : Product)
    → purchased metadata price o ≡ ok (price', q)
    → (price' ≡ price) × (o ≡ some q) × (q.kind ≡ bytes "one_time")
unfolding purchased
purchased_product metadata price price' none q h = cc
purchased_product metadata price price' (some r) q h =
    ground (arith, h, eq_iff r.kind (bytes "one_time"))

module _ (p : StripePaymentProvider) (session : CheckoutSession) (event_id : Text) (at : Time)
    (kind : EventType) (w : World) where
  abbrev payment_of : Text → PaymentEvent
  payment_of price_id = record (checkout_payment session at kind) { price_id = price_id }

  -- What precedes a message, and the message.
  pub record Purchase (res : Result (Unit {0}) × World) : Type 0 where
    pub send : Text → PurchaseMessage → Exec (Unit {0})
    pub price_id : Text
    pub product : Product
    pub before : World
    pub after : World
    pub subscribed : p.event_bus ≡ some send
    pub one_time : session.mode ≡ CheckoutMode.payment
    pub settled : is_settled kind session.payment_status ≡ true
    pub identified : is_empty (trim_space (get session.metadata identity_key)) ≡ false
    pub resolved : checkout_product p session w ≡ (ok (price_id, product), before)
    pub listed : product_at p.products price_id ≡ some product
    pub sold_once : product.kind ≡ bytes "one_time"
    pub kept : upsert_payment (payment_of price_id) before ≡ (ok tt, after)
    pub sent :
        res
        ≡ send purchase_completed_v1_topic
            (purchase_message session event_id at (payment_of price_id) product)
            after

  unfoldable pub Publishes : Result (Unit {0}) × World → Type 0
  Publishes res =
      (res ≡ handle_stripe_checkout (silent p) session event_id at kind w) ⊎ Purchase res

  resolved_product :
      (price : Text) (q : Product) (w1 : World)
      → checkout_product p session w ≡ (ok (price, q), w1)
      → (product_at p.products price ≡ some q) × (q.kind ≡ bytes "one_time")
  unfolding checkout_product
  resolved_product price q w1 h =
      let (found, w2, named, checked) = bind_returns _ _ w (price, q) w1 h in
      let (same, listed, once) =
        purchased_product session.metadata found price (product_at p.products found) q
          (from_returns _ w2 _ w1 checked).0 in
      (rw same listed, once)

  priced :
      (price : Text) (q : Product) (w1 : World)
      → is_purchase session kind ≡ true
      → checkout_price p session kind w ≡ (ok (price, q), w1)
      → (is_empty (trim_space (get session.metadata identity_key)) ≡ false)
        × (checkout_product p session w ≡ (ok (price, q), w1))
  unfolding checkout_price
  priced price q w1 yes_purchase h =
      let (u, w2, named, rest) = bind_returns _ _ w (price, q) w1 (rw yes_purchase at h) in
      let (given, same) = require_returns _ _ w w2 named in (ground (arith, given), rw same rest)

  abbrev message_of : Text × Product → PurchaseMessage
  message_of (price_id, q) = purchase_message session event_id at (payment_of price_id) q

  abbrev keep_payment : Text × Product → Exec (Unit {0})
  keep_payment (price_id, q) = upsert_payment (payment_of price_id)

  purchase_run :
      (q : StripePaymentProvider)
      → is_purchase session kind ≡ true
      → handle_stripe_checkout q session event_id at kind w
        ≡ run (checkout_price q session kind) keep_payment message_of w q.event_bus
  unfolding handle_stripe_checkout
  purchase_run q h = rw h refl

  price_silently : checkout_price p session kind ≡ checkout_price (silent p) session kind
  unfolding checkout_price
  price_silently = refl

  other_run :
      is_purchase session kind ≡ false
      → handle_stripe_checkout p session event_id at kind w
        ≡ handle_stripe_checkout (silent p) session event_id at kind w
  unfolding handle_stripe_checkout follow_subscription
  other_run h = rw h refl

  handle_stripe_checkout-Purchase :
      is_purchase session kind ≡ true
      → Sends (checkout_price p session kind) keep_payment message_of w p.event_bus
      → Purchase (handle_stripe_checkout p session event_id at kind w)
  handle_stripe_checkout-Purchase h
        (send, (price_id, q), w1, w2, subscribed, priced_as, kept, sent) =
      let (identified, resolved) = priced price_id q w1 h priced_as in
      let (listed, sold_once) = resolved_product price_id q w1 resolved in
      let (one_time, settled) = purchase_settled session kind h in
      record {
        send = send;
        price_id = price_id;
        product = q;
        before = w1;
        after = w2;
        subscribed = subscribed;
        one_time = one_time;
        settled = settled;
        identified = identified;
        resolved = resolved;
        listed = listed;
        sold_once = sold_once;
        kept = kept;
        sent = purchase_run p h ∙ sent;
      }

  -- A checkout tells the event bus of a purchase only where it is a one-time checkout with nothing
  -- left to pay, whose metadata name an identity, whose product is one of the provider's that is
  -- sold once, and whose payment has been kept before; then it does so once, as the last thing. In
  -- all other cases it does exactly what it does without a bus.
  pub handle_stripe_checkout-Publishes :
      Publishes (handle_stripe_checkout p session event_id at kind w)
  unfolding Publishes
  handle_stripe_checkout-Publishes = elim (Bool-cases (is_purchase session kind)) [
    | inr h ↦ inl (other_run h)
    | inl h ↦
        elim (run-Sends (checkout_price p session kind) keep_payment message_of w p.event_bus) [
          | inl same ↦
              inl (purchase_run p h ∙ same ∙ rw (price_silently) (sym (purchase_run (silent p) h)))
          | inr sends ↦ inr (handle_stripe_checkout-Purchase h sends)
        ]
  ]
