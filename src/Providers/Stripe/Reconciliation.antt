-- ===== src/Providers/Stripe/Reconciliation.antt =====
-- What `ReconcileSubscription` of provider_stripe.go leaves of the keys of the subscriptions, and the
-- reconciliations of a service with this provider.
use procyon_modules.Base.{◌≡◌, ◌≢◌, sym, ap, ◌∙◌, none, [], ◌∷◌, map, inl, inr, Bool-cases, subst}
use procyon_modules.Base.Text.{Text, ◌==◌, eq_iff, is_empty}
use procyon_modules.Models.{PaymentSubscription}
use procyon_modules.Exec.{Result, ok, World, Db}
use procyon_modules.Exec.Rules.{at_bind, at_if, at_pure}
use procyon_modules.Store.Table.Laws.{All-weaken}
use procyon_modules.Store.Table.Members.{IsIn, IsIn-map, each-IsIn}
use procyon_modules.Store.Subscriptions.{upsert_subscription}
use procyon_modules.Store.Subscriptions.Keys.{key_of, keys, row_found, upsert_subscription-keys}
use procyon_modules.Store.Subscriptions.Upsert.{subscription_of}
use procyon_modules.Service.{PaymentSystemService, lookup}
use procyon_modules.Service.Reconcile.{reconcile_one, reconciler}
use procyon_modules.Service.Reconcile.Termination.{Confines}
use procyon_modules.Providers.Stripe.{StripeSubscription, StripePaymentProvider, stripe}
use procyon_modules.Providers.Stripe.Subscriptions.{
  stripe_subscription_model, upsert_stripe_subscription, reconcile_stripe_subscription,
}
use procyon_modules.Providers.Stripe.Entitlement.{model_columns}
use procyon_modules.Providers.Stripe.Sales.{PriceCache}
use procyon_modules.Providers.Interfaces.{stripe_provider}

-- Stripe's client answers with the subscription that it is asked for, and does not write to the
-- database.
pub record Fetches (p : StripePaymentProvider) : Type 0 where
  pub leaves : (id : Text) (w : World) → (p.retrieve_subscription id w).1.db ≡ w.db
  pub answers :
      (id : Text) (w w' : World) (found : StripeSubscription)
      → p.retrieve_subscription id w ≡ (ok found, w')
      → found.id ≡ id

module _ (p : StripePaymentProvider) (fetches : Fetches p) where
  -- A reconciliation of a subscription that has a row neither adds nor removes one.
  reconcile-keys :
      (stored : PaymentSubscription) (w : World)
      → subscription_of stripe stored.external_subscription_id w.db ≢ none
      → keys (reconcile_stripe_subscription p stored w).1.db ≡ keys w.db
  unfolding reconcile_stripe_subscription upsert_stripe_subscription
  reconcile-keys stored w found =
      at_bind P (p.retrieve_subscription id) _ w (λ e w' h. ap keys (left _ w' h))
        λ fetched w' h.
          at_if P (is_empty fetched.id) _ _ w' (λ b. at_pure P tt w' (ap keys (left _ w' h)))
            (λ b. upserted fetched w' h ∙ ap keys (left _ w' h))
    where
      id : Text
      id = stored.external_subscription_id

      P : Result (Unit {0}) × World → Type 0
      P res = keys res.1.db ≡ keys w.db

      left :
          (r : Result StripeSubscription) (w' : World)
          → p.retrieve_subscription id w ≡ (r, w')
          → w'.db ≡ w.db
      left r w' h = ap (λ x. x.1.db) (sym h) ∙ fetches.leaves id w

      upserted :
          (fetched : StripeSubscription) (w' : World)
          → p.retrieve_subscription id w ≡ (ok fetched, w')
          → let model = stripe_subscription_model p fetched stored.identity_id in
            keys (upsert_subscription model w').1.db ≡ keys w'.db
      upserted fetched w' h =
          let (named, external, status, until) = model_columns p fetched stored.identity_id in
          upsert_subscription-keys _ w' (λ q.
            found
              (rw (← named, ← (external ∙ fetches.answers id w w' fetched h), ← (left _ w' h)) q))

  -- In a service whose provider is Stripe, the keys of the subscriptions stay what they are.
  pub stripe-Confines :
      (cache : PriceCache) (s : PaymentSystemService) (start : Db)
      → s.providers ≡ (stripe, stripe_provider p cache) ∷ []
      → Confines s (map (λ k. k.0) (keys start)) (λ db. keys db ≡ keys start)
  unfolding reconcile_one reconciler lookup stripe_provider
  stripe-Confines cache s start only = record {
    bounded = λ db same.
        All-weaken _ _ db.subscriptions.rows
          (λ r m.
            IsIn-map (λ k. k.0) (key_of r) (keys start)
              (subst (IsIn (key_of r)) same (IsIn-map key_of r db.subscriptions.rows m)))
          (each-IsIn db.subscriptions.rows);
    kept = λ item before w b m same. elim (Bool-cases (stripe == item.provider)) [
      | inl h ↦
          rw (only, h)
            (reconcile-keys item w (
                rw ((eq_iff stripe item.provider).0 h)
                  (row_found item before w.db m (b ∙ sym same)))
              ∙ same)
      | inr h ↦ rw (only, h) same
    ];
  }
