-- ===== src/Booking.antt =====
-- The booking service (services/booking/src/booking).
pub mod Domain
pub mod Models
pub mod Events
pub mod Auth
pub mod Tokens
pub mod Invariant
pub mod Outbox
pub mod System
pub mod Calendar
pub mod Http
mod Examples
pub mod Service
