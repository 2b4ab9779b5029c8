-- ===== src/Lib.antt =====
-- The payment system of procyon-modules (payment-system/): a plugin that keeps payments, webhook
-- events and subscriptions in three tables, and sells through providers (Stripe, Google Play, App
-- Store) that it reaches by one interface. Workers claim a webhook event under a lease, process it
-- and finish it; upserts merge what the providers report into one row for each payment or
-- subscription; queries answer whether an identity is entitled; a background job reconciles all
-- subscriptions.
--
-- Files and the code that they are about:
--   Models, Models/Status, Models/Errors, Models/Inputs: payment-system/models, and the errors of
--     services/service.go. A field has the name of its column.
--   Exec, Exec/Rules, Exec/Results, Exec/Reliable: what a call runs in. A call is a function from
--     the world (database, clock, environment, metrics) to a result and the next world.
--   Store/Table, Store/Keyed: the meaning of the SQL, and of a unique index on two columns.
--   Store/Webhooks, Store/Payments, Store/Subscriptions: payment-system/store/store.go, one
--     function for each method, with its statements in their order. Below them: what a call does
--     to each row (Claim, Finish, Upsert, Settled, Keys, Entitlements), and what any sequence of
--     calls keeps (History, Ranks, Owners). Store/Answers: what the calls answer where no statement fails.
--   Config: payment-system/services/config.go, from the settings to RuntimeConfig.
--   Service: payment-system/services/service.go. A provider is a record of optional capabilities,
--     as the code tests interfaces; Service/Checkout has the calls that reach one,
--     Service/Reconcile the walk over all subscriptions, Service/Queries the answers.
--   Providers/Delivery: the end of every HandleWebhook. Providers/Calls: errors and times of the
--     providers. Providers/Stripe, Providers/Apple, Providers/Google: payment-system/services,
--     provider_stripe.go, provider_apple.go and provider_google.go; Providers/Stripe has the event
--     of payment-system/contracts too. Providers/Factories: their factories, and
--     Providers/Interfaces: what Service sees of them.
--   Migrations, Migrations/Applied: payment-system/migrations.go, the repair of old rows, and the
--     runner with the table of applied versions.
--   Controller, Controller/Requests, Controller/Handlers, Controller/Access:
--     payment-system/controllers/controller.go, the answers to errors, what the handlers share, one
--     function for each handler, and which handlers want an identity.
--   Plugin, Plugin/Background: payment-system/plugin.go, the construction and the routes, and the
--     background reconciliation as a step relation.
--   Tests: runs on concrete databases.
--
-- How the code corresponds:
--   A Go error is a value of Error, and `errors.Is` the function `is`. A string is its bytes; case
--   and white space are those of ASCII. An error's text leaves out the quotation marks of %q.
--   A time is the number of nanoseconds since Go's zero time and a duration an integer; the test
--   `started < now - lease` is written without a subtraction. The clock stands still within one
--   call of the store; a provider's call may move it. Primary keys, attempts and the sum of the
--   latencies are unbounded; the counters of the metrics wrap at 64 bits, as does the product of a
--   number of seconds and time.Second.
--   Each statement, BEGIN and COMMIT included, is one request to the environment, which decides
--   whether it fails, so that a theorem for all worlds covers every pattern of failures. A
--   statement is atomic, and calls of several workers are served one after the other; an upsert's
--   transaction holds the lock of its row, so that it is one such call. gorm's stamps are written
--   out: an inserted row gets the next key and both times, an updated one its time. Callers pass
--   rows without a key. ORDER BY breaks ties by the key. A NULL text is the empty one.
--   A map with a fixed set of keys is a list of its values, or of pairs; the map of the metrics is
--   a function.
--   Reconcile has a fuel that counts its batches; one more than the number of primary keys that the
--   reconciliations can lead to is enough. With the provider of Stripe, whose client answers with the
--   subscription that it is asked for, these are the keys of the subscriptions that there are
--   (Providers/Stripe/Reconciliation). No other definition has fuel.
--   A constant of Stripe's package is a constructor, a pointer to an object of which only the id is
--   read is that id, and a list that a client goes through may end in an error. Apple's libraries
--   are one record of functions. A time before Go's zero time is that one.
--
-- Parameters, for what is not in the repository or is a decoder: the environment's variables and
-- files, json.Unmarshal, base64, time.ParseDuration (Platform), url.Parse, the calls of the
-- providers that Service makes; for Google the Play API, the check of the push token and the
-- cryptographic functions; for Stripe its client, the check of its signature and the event bus; for
-- Apple certificates, keys, hashes, encodings and HTTP; for the handlers the session, the bound
-- input and its validation. The theorems hold for all of them, but for the round trip of the
-- encrypted tokens, which states the laws of the cipher and of base64 that it needs.
--
-- Not modelled: log lines, the middleware and the host application behind the routes and its
-- example, and the floating point of an average, which is given as a sum and a count. A change of
-- the schema is taken to keep the rows and to be undone with its transaction.
pub mod Base
pub mod Models
pub mod Exec
pub mod Config
pub mod Store
pub mod Service
pub mod Providers
pub mod Migrations
pub mod Controller
pub mod Plugin
pub mod Tests
