-- ===== src/Tests/Reconcile.antt =====
-- A reconciliation with the provider of Stripe on a concrete client and database.
use procyon_modules.Base.{ℕ, ◌≡◌, refl, some, List, [], ◌∷◌, arith, map}
use procyon_modules.Base.Text.{bytes}
use procyon_modules.Models.{SubscriptionStatus}
use procyon_modules.Exec.{Result, World, Db, pure}
use procyon_modules.Store.Subscriptions.Keys.{keys}
use procyon_modules.Service.{PaymentSystemService}
use procyon_modules.Service.Reconcile.{reconcile}
use procyon_modules.Service.Reconcile.Termination.{reconcile_ends}
use procyon_modules.Providers.Stripe.{StripePaymentProvider, stripe}
use procyon_modules.Providers.Stripe.Reconciliation.{Fetches, stripe-Confines}
use procyon_modules.Providers.Interfaces.{stripe_provider}
use procyon_modules.Tests.{new_world, subscription}
use procyon_modules.Tests.Service
use procyon_modules.Tests.Stripe

-- Every subscription is active and paid until 2024.
abbrev provider : StripePaymentProvider
provider = record Stripe.provider {
  retrieve_subscription = λ id. pure (record Stripe.bought { id = id });
}

provider-Fetches : Fetches provider
unfolding pure
provider-Fetches = record { leaves = λ id w. refl; answers = λ id w w' found h. cc }

abbrev service : PaymentSystemService
service = record Service.service {
  providers = (stripe, stripe_provider provider Stripe.cache) ∷ [];
}

-- Ann has two subscriptions, of which one is past due.
abbrev start : World
start = record (new_world 100) {
  db = record (new_world 100).db {
    subscriptions = record {
      rows =
          record (subscription (bytes "ann") SubscriptionStatus.past_due) { id = 1 }
          ∷ record (subscription (bytes "ann") SubscriptionStatus.active) {
            id = 2;
            external_subscription_id = bytes "sub_2";
          }
          ∷ [];
      next_id = 3;
    };
  };
}

abbrev ids : List ℕ
ids = map (λ k. k.0) (keys start.db)

abbrev Inv : Db → Type 0
Inv db = keys db ≡ keys start.db

reconcile_ends_example : (res : Result (Unit {0}) × World) × (reconcile service 3 start ≡ some res)
reconcile_ends_example =
    reconcile_ends service ids Inv 3 start
      (stripe-Confines provider provider-Fetches Stripe.cache service start.db refl) refl
      (omega arith)
