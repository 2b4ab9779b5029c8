-- ===== src/Store.antt =====
-- payment-system/store/store.go.
pub mod Table
pub mod Keyed
pub mod Webhooks
pub mod Payments
pub mod Subscriptions
pub mod Answers
