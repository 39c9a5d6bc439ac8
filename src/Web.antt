-- ===== src/Web.antt =====
-- The web front end (services/web/src/web).
pub mod Tokens
pub mod Forms
pub mod Login
pub mod BookingClient
pub mod Pages
pub mod Browser
pub mod Sessions
mod Examples
