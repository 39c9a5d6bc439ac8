-- ===== src/Payments.antt =====
-- The payments service (services/payments/src/payments).
pub mod Domain
pub mod Models
pub mod Clients
pub mod Service
pub mod Invariant
pub mod Webhooks
pub mod Checkout
pub mod Relay
pub mod Http
pub mod Lifecycle
pub mod System
mod Examples
