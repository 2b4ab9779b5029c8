-- ===== src/Exec.antt =====
-- What a call of the store or of the service runs in: the database, the clock, and what the
-- environment decides, which is whether a statement fails and what the random source yields.
pub mod Rules
pub mod Results
pub mod Reliable
use procyon_modules.Base.{ℕ, suc, Option, none, some, List}
use procyon_modules.Base.Text.{Text}
use procyon_modules.Models.{
  Time, PaymentEvent, PaymentWebhookEvent, PaymentSubscription, PaymentModuleMigration,
}
use procyon_modules.Models.Errors.{Error, message, database}

pub data Result (A : Type 0) : Type 0 where
  ok : A → Result A
  err : Error → Result A

-- A table: its rows in the order of their primary keys, and the next key. The keys of the applied
-- migrations are their versions.
pub record Table (Row : Type 0) : Type 0 where
  pub rows : List Row
  pub next_id : ℕ

pub record Db : Type 0 where
  pub webhooks : Table PaymentWebhookEvent
  pub payments : Table PaymentEvent
  pub subscriptions : Table PaymentSubscription
  pub migrations : List PaymentModuleMigration

-- `providerMetrics`: latency in nanoseconds.
pub record ProviderMetrics : Type 0 where
  pub requests : ℕ
  pub failures : ℕ
  pub total_latency : ℕ

-- `fails n` is the driver's error at the n-th request to the environment, if it fails, and
-- `entropy n size` the bytes that the random source yields there for `size` of them; `metrics` is the service's, by provider.
pub record World : Type 0 where
  pub db : Db
  pub clock : Time
  pub fails : ℕ → Option Text
  pub entropy : ℕ → ℕ → Option (List ℕ)
  pub requests : ℕ
  pub metrics : Text → ProviderMetrics

abbrev pub Exec : Type 0 → Type 0
Exec A = World → Result A × World

module _ {A : Type 0} where
  unfoldable pub pure : A → Exec A
  pure a w = (ok a, w)

  unfoldable pub raise : Error → Exec A
  raise e w = (err e, w)

  -- `return value, err`
  unfoldable pub from : Result A → Exec A
  from r w = (r, w)

infixl 5 ◌>>=◌ ◌>>◌
-- opening this opens `pure`, `raise` and `from` too
unfoldable pub ◌>>=◌ : {A B : Type 0} → Exec A → (A → Exec B) → Exec B
unfolding pure raise from
◌>>=◌ m f w = let (r, w') = m w in elim r [ ok a ↦ f a w' | err e ↦ (err e, w') ]

abbrev pub ◌>>◌ : {A B : Type 0} → Exec A → Exec B → Exec B
m >> n = m >>= λ _. n

-- `time.Now().UTC()`: the clock stands still within one call.
unfoldable pub time_now : Exec Time
time_now w = (ok w.clock, w)

abbrev pub next_request : World → World
next_request w = record w { requests = suc w.requests }

-- One statement: it fails and does nothing, or it does what it says.
unfoldable pub statement : {A : Type 0} → (Db → A × Db) → Exec A
statement m w = elim (w.fails w.requests) [
  | some text ↦ (err (database text), next_request w)
  | none ↦ (ok (m w.db).0, record (next_request w) { db = (m w.db).1 })
]

-- The end of a transaction that began on `db`: the changes of a body that fails are undone, and
-- so they are where the COMMIT fails.
abbrev pub end_transaction : {A : Type 0} → Db → Result A × World → Result A × World
end_transaction db (err e, w) = (err e, record w { db = db })
end_transaction db (ok a, w) = elim (w.fails w.requests) [
  | some text ↦ (err (database text), record (next_request w) { db = db })
  | none ↦ (ok a, next_request w)
]

-- `db.Transaction(func)`: BEGIN may fail too.
unfoldable pub transaction : {A : Type 0} → Exec A → Exec A
transaction body w = elim (w.fails w.requests) [
  | some text ↦ (err (database text), next_request w)
  | none ↦ end_transaction w.db (body (next_request w))
]

-- `rand.Read`
unfoldable pub random_bytes : ℕ → Exec (List ℕ)
random_bytes size w = elim (w.entropy w.requests size) [
  | some raw ↦ (ok raw, next_request w)
  | none ↦ (err (message List.[]), next_request w)
]
