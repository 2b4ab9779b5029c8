-- ===== src/Providers.antt =====
-- payment-system/services/provider_*.go: what the providers do with webhooks and purchases.
pub mod Calls
pub mod Delivery
pub mod Google
pub mod Stripe
pub mod Apple
pub mod Factories
pub mod Interfaces
